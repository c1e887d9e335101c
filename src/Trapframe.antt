-- ===== src/Trapframe.antt =====
-- `struct trapframe_t` of kernel/process.h: the offsets of its fields.
use pke.Base.{ℕ, ◌+◌, ◌*◌}

abbrev pub sp : ℕ
sp = 8

abbrev pub tp : ℕ
tp = 24

-- `a0` to `a7` follow each other.
abbrev pub a : ℕ → ℕ
a i = 72 + 8 * i

abbrev pub kernel_sp : ℕ
kernel_sp = 248

abbrev pub kernel_trap : ℕ
kernel_trap = 256

abbrev pub epc : ℕ
epc = 264

abbrev pub kernel_satp : ℕ
kernel_satp = 272

abbrev pub size : ℕ
size = 280
