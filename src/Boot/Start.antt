-- ===== src/Boot/Start.antt =====
-- kernel/kernel.c.
use pke.Base.{ℕ, ◌*◌, ◌/◌, ◌^◌, bit_or, Cmd, pure, modify, ◌>>=◌, ◌>>◌}
use pke.Pmm.Init.{pmm_init}
use pke.Kernel.{Kernel, on_pmm}
use pke.Sched.Queue.{insert_to_ready_queue}
use pke.Sched.Next.{Image, schedule}
use pke.Vmm.KernelMap.{kern_vm_init}
use pke.Process.Pool.{init_proc_pool, alloc_process}
use pke.Boot.Elf.{Host, load_bincode_from_host_elf}

-- MAKE_SATP of kernel/riscv.h.
unfoldable pub make_satp : ℕ → ℕ
make_satp pagetable = bit_or (8 * 2 ^ 60) (pagetable / 2 ^ 12)

unfoldable pub enable_paging : Cmd Kernel (Unit {0})
enable_paging = modify (λ k. record k { satp = make_satp k.g_kernel_pagetable })

unfoldable pub load_user_program : Image → Host → Cmd Kernel ℕ
load_user_program im host = do
  proc ← alloc_process im
  load_bincode_from_host_elf host proc
  pure proc

-- The first process, when the memory is set up.
unfoldable pub start_user : Image → Host → Cmd Kernel ℕ
start_user im host = do
  init_proc_pool
  proc ← load_user_program im host
  insert_to_ready_queue proc
  schedule im
  pure 0

-- `kernel_end` is the address of `_end`.
unfoldable pub s_start : Image → Host → ℕ → Cmd Kernel ℕ
s_start im host kernel_end = do
  modify (λ k. record k { satp = 0 })
  on_pmm (pmm_init kernel_end)
  kern_vm_init im.etext
  enable_paging
  start_user im host
