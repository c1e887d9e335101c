-- ===== src/Trap/Handler.antt =====
-- kernel/strap.c.
use pke.Base.{
  ℕ, ◌+◌, ◌-◌, ◌%◌, ◌^◌, false, ◌==◌, ltb, not, ◌&&◌, ◌||◌, if◌then◌else◌, none, some, Cmd, halt,
  panicked, get, pure, stop, ensure, ◌>>=◌, ◌>>◌, bit_and, bit_or,
}
use pke.Pmm.State.{page_size}
use pke.Pmm.Cache.{alloc_page, pfree}
use pke.Kernel.{Kernel, deref, load, store, copy_words, on_pmm}
use pke.Sched.Next.{Image, switch_to, sstatus_spp}
use pke.Vmm.Pte.{pte_v, pte_w, pte_cow, has_flag, pa_to_pte, pte_to_pa}
use pke.Vmm.Walk.{page_walk}
use pke.Trap.Syscall.{do_syscall}
use pke.Trapframe

-- The writer gets a copy of the page of its own: `*pte = PA2PTE(new_pa) | flags without PTE_COW |
-- PTE_W`.
unfoldable pub owned_entry : ℕ → ℕ → ℕ
owned_entry new_pa w =
    bit_or (bit_or (pa_to_pte new_pa) (bit_and (bit_and w 0x3ff) (2 ^ 64 - 1 - pte_cow))) pte_w

-- The last reader of a page may write it again: `*pte |= PTE_W; *pte &= ~PTE_COW`.
unfoldable pub unshared_entry : ℕ → ℕ
unshared_entry w = bit_and (bit_or w pte_w) (2 ^ 64 - 1 - pte_cow)

unfoldable pub copy_page : ℕ → ℕ → Cmd Kernel (Unit {0})
copy_page pte pa = do
  new_pa ← on_pmm alloc_page
  ensure (not (new_pa == 0)) panicked
  copy_words new_pa pa page_size
  w ← load pte
  store pte (owned_entry new_pa w)
  on_pmm (pfree pa)

unfoldable pub unshare_page : ℕ → Cmd Kernel (Unit {0})
unshare_page pte = do w ← load pte; store pte (unshared_entry w)

abbrev pub cause_user_ecall : ℕ
cause_user_ecall = 0x8

abbrev pub cause_mtimer_s_trap : ℕ
cause_mtimer_s_trap = 0x8000_0000_0000_0001

abbrev pub cause_load_page_fault : ℕ
cause_load_page_fault = 0xd

abbrev pub cause_store_page_fault : ℕ
cause_store_page_fault = 0xf

-- get_page and get_page_ref are declared nowhere in the sources.
module _ (im : Image) (get_page : ℕ → Cmd Kernel (Unit {0})) (get_page_ref : ℕ → Kernel → ℕ) where
  unfoldable pub handle_syscall : ℕ → Cmd Kernel (Unit {0})
  handle_syscall tf = do
    epc ← load (tf + Trapframe.epc)
    store (tf + Trapframe.epc) ((epc + 4) % 2 ^ 64)
    a0 ← load (tf + Trapframe.a 0)
    a1 ← load (tf + Trapframe.a 1)
    r ← do_syscall im get_page a0 a1
    store (tf + Trapframe.a 0) r

  -- TODO bodies of the sources: both panic.
  unfoldable pub handle_mtimer_trap : Cmd Kernel (Unit {0})
  handle_mtimer_trap = stop panicked

  unfoldable pub rrsched : Cmd Kernel (Unit {0})
  rrsched = stop panicked

  unfoldable pub store_fault : ℕ → Cmd Kernel (Unit {0})
  store_fault stval = do
    k ← get
    c ← deref k.current
    pte ← page_walk (k.procs c).pagetable stval 0 false
    w ← load pte
    (if not (pte == 0) && has_flag w pte_v && has_flag w pte_cow
        then (if ltb 1 (get_page_ref (pte_to_pa w) k)
            then copy_page pte (pte_to_pa w)
            else unshare_page pte)
        else stop panicked)

  -- Any other cause is only reported.
  unfoldable pub handle_user_page_fault : ℕ → ℕ → Cmd Kernel (Unit {0})
  handle_user_page_fault mcause stval =
      if mcause == cause_store_page_fault then store_fault stval else pure tt

  unfoldable pub dispatch : ℕ → ℕ → Cmd Kernel (Unit {0})
  dispatch tf cause = do
    k ← get
    (if cause == cause_user_ecall
        then handle_syscall tf
        else if cause == cause_mtimer_s_trap
        then handle_mtimer_trap >> rrsched
        else if cause == cause_store_page_fault || cause == cause_load_page_fault
        then handle_user_page_fault cause k.stval
        else stop panicked)

  unfoldable pub smode_trap_handler : Cmd Kernel (Unit {0})
  smode_trap_handler = do
    k ← get
    ensure (bit_and k.sstatus sstatus_spp == 0) panicked
    (λ k. elim k.current [
      | none ↦ halt panicked
      | some c ↦
          (store ((k.procs c).trapframe + Trapframe.epc) k.sepc
              >> dispatch (k.procs c).trapframe k.scause)
            k
    ])
    t ← get
    next ← deref t.current
    switch_to im next
