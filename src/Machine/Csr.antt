-- ===== src/Machine/Csr.antt =====
-- The registers and the timer of machine mode, with the constants of kernel/riscv.h for them.
use pke.Base.{ℕ, ◌+◌, ◌*◌, ◌^◌, ◌==◌, if◌then◌else◌}

-- The control registers and the CLINT timer; a register keeps what is written to it.
pub record Machine : Type 0 where
  pub mcause : ℕ
  pub mepc : ℕ
  pub mscratch : ℕ
  pub mstatus : ℕ
  pub mtvec : ℕ
  pub mideleg : ℕ
  pub medeleg : ℕ
  pub mie : ℕ
  pub sie : ℕ
  pub sip : ℕ
  pub misa : ℕ
  pub mtime : ℕ
  pub mtimecmp : ℕ → ℕ

abbrev pub mstatus_mpp_mask : ℕ
mstatus_mpp_mask = 3 * 2 ^ 11

abbrev pub mstatus_mpp_s : ℕ
mstatus_mpp_s = 2 ^ 11

abbrev pub mstatus_mie : ℕ
mstatus_mie = 2 ^ 3

abbrev pub irq_s_ext : ℕ
irq_s_ext = 9

abbrev pub irq_s_timer : ℕ
irq_s_timer = 5

abbrev pub irq_s_soft : ℕ
irq_s_soft = 1

abbrev pub mip_seip : ℕ
mip_seip = 2 ^ irq_s_ext

abbrev pub mip_ssip : ℕ
mip_ssip = 2 ^ irq_s_soft

abbrev pub mip_stip : ℕ
mip_stip = 2 ^ irq_s_timer

abbrev pub cause_misaligned_fetch : ℕ
cause_misaligned_fetch = 0

abbrev pub cause_fetch_access : ℕ
cause_fetch_access = 1

abbrev pub cause_illegal_instruction : ℕ
cause_illegal_instruction = 2

abbrev pub cause_breakpoint : ℕ
cause_breakpoint = 3

abbrev pub cause_misaligned_load : ℕ
cause_misaligned_load = 4

abbrev pub cause_load_access : ℕ
cause_load_access = 5

abbrev pub cause_misaligned_store : ℕ
cause_misaligned_store = 6

abbrev pub cause_store_access : ℕ
cause_store_access = 7

abbrev pub cause_fetch_page_fault : ℕ
cause_fetch_page_fault = 12

abbrev pub cause_mtimer : ℕ
cause_mtimer = 2 ^ 63 + 7

abbrev pub sip_ssip : ℕ
sip_ssip = 2

abbrev pub sie_seie : ℕ
sie_seie = 2 ^ 9

abbrev pub sie_stie : ℕ
sie_stie = 2 ^ 5

abbrev pub sie_ssie : ℕ
sie_ssie = 2 ^ 1

abbrev pub mie_mtie : ℕ
mie_mtie = 2 ^ 7

abbrev pub timer_interval : ℕ
timer_interval = 1000000

abbrev pub write_mtimecmp : ℕ → ℕ → Machine → Machine
write_mtimecmp hart v m = record m { mtimecmp = λ h. if h == hart then v else m.mtimecmp h }
