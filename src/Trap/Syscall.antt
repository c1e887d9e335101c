-- ===== src/Trap/Syscall.antt =====
-- kernel/syscall.c.
use pke.Base.{
  ℕ, ◌+◌, ◌-◌, ◌*◌, ◌/◌, ◌%◌, ◌^◌, true, false, ◌==◌, ltb, not, ◌||◌, if◌then◌else◌, none, some,
  Cmd, ok, halt, panicked, faulted, get, pure, stop, ensure, set, length, get_elem?, ◌>>=◌, ◌>>◌,
  bit_and, bit_or,
}
use pke.Pmm.State.{page_size}
use pke.Pmm.Cache.{alloc_page}
use pke.Kernel.{Kernel, deref, load, store, on_pmm}
use pke.Sched.Next.{Image, schedule}
use pke.Vmm.Pte.{prot_to_type, prot_read, prot_write, pte_v, has_flag, pte_to_pa}
use pke.Vmm.Walk.{page_walk}
use pke.Vmm.Maps.{user_va_to_pa, user_vm_map, user_vm_unmap}
use pke.Process.Pool.{heap_segment, region, update_proc, free_process}
use pke.Process.Fork.{do_fork}

-- `assert(current)`; the text itself goes to the console. A null pointer is no text: a fault.
unfoldable pub sys_user_print : ℕ → Cmd Kernel ℕ
sys_user_print buf k = elim k.current [
  | none ↦ halt panicked
  | some c ↦
      (user_va_to_pa (k.procs c).pagetable buf >>= λ pa. ensure (not (pa == 0)) faulted >> pure 0) k
]

unfoldable pub sys_user_exit : Image → Cmd Kernel ℕ
sys_user_exit im = do k ← get; c ← deref k.current; free_process c; schedule im; pure 0

-- `free_pages_address[--free_pages_count]`, within the array.
unfoldable pub pop_free_page : ℕ → Cmd Kernel ℕ
pop_free_page c = do
  k ← get
  let heap = (k.procs c).user_heap
  let top = heap.free_pages_count - 1
  update_proc c (λ p. record p { user_heap = record (p.user_heap) { free_pages_count = top } })
  (λ t. elim (get_elem? heap.free_pages_address top) [
    | none ↦ halt faulted
    | some va ↦ (if ltb va heap.heap_top then ok va t else halt panicked)
  ])

-- The heap grows by a page.
unfoldable pub grow_heap : ℕ → Cmd Kernel ℕ
grow_heap c = do
  k ← get
  let p = k.procs c
  update_proc c (λ p. record p {
    user_heap = record (p.user_heap) { heap_top = (p.user_heap.heap_top + page_size) % 2 ^ 64 };
  })
  w ← load (region p.mapped_info heap_segment + 8)
  store (region p.mapped_info heap_segment + 8) ((w % 2 ^ 32 + 1) % 2 ^ 32 + w / 2 ^ 32 * 2 ^ 32)
  pure p.user_heap.heap_top

unfoldable pub sys_user_allocate_page : Cmd Kernel ℕ
sys_user_allocate_page = do
  pa ← on_pmm alloc_page
  k ← get
  c ← deref k.current
  va ← (if ltb 0 (k.procs c).user_heap.free_pages_count then pop_free_page c else grow_heap c)
  user_vm_map (k.procs c).pagetable va page_size pa
      (prot_to_type (bit_or prot_write prot_read) true)
  pure va

-- `free_pages_address[free_pages_count++] = va`, within the array.
unfoldable pub push_free_page : ℕ → ℕ → Cmd Kernel (Unit {0})
push_free_page c va = do
  k ← get
  let heap = (k.procs c).user_heap
  ensure (ltb heap.free_pages_count (length heap.free_pages_address)) faulted
  update_proc c (λ p. record p {
    user_heap = record (p.user_heap) {
      free_pages_address = set heap.free_pages_address heap.free_pages_count va;
      free_pages_count = (heap.free_pages_count + 1) % 2 ^ 32;
    };
  })

unfoldable pub sys_user_free_page : ℕ → Cmd Kernel ℕ
sys_user_free_page va = do
  k ← get
  c ← deref k.current
  user_vm_unmap (k.procs c).pagetable va page_size true
  push_free_page c va
  pure 0

unfoldable pub sys_user_yield : Cmd Kernel ℕ
sys_user_yield = stop panicked

-- sys_user_sem_new, sys_user_sem_P and sys_user_sem_V are empty shells.
unfoldable pub sys_user_sem : Cmd Kernel ℕ
sys_user_sem = pure 0

unfoldable pub sys_user_printpa : ℕ → Cmd Kernel ℕ
sys_user_printpa va = do
  k ← get
  c ← deref k.current
  pte ← page_walk (k.procs c).pagetable va 0 false
  w ← load pte
  pure (
      if pte == 0 || not (has_flag w pte_v)
      then 0
      else (pte_to_pa w + bit_and va (page_size - 1)) % 2 ^ 64)

-- The numbers of the system calls in kernel/syscall.h.
abbrev pub sys_user_base : ℕ
sys_user_base = 64

module _ (im : Image) (get_page : ℕ → Cmd Kernel (Unit {0})) where
  unfoldable pub sys_user_fork : Cmd Kernel ℕ
  sys_user_fork = do k ← get; c ← deref k.current; do_fork im get_page c

  -- The calls read a0 and a1 of their eight arguments.
  unfoldable pub do_syscall : ℕ → ℕ → Cmd Kernel ℕ
  do_syscall a0 a1 =
      if a0 == sys_user_base + 0
      then sys_user_print a1
      else if a0 == sys_user_base + 1
      then sys_user_exit im
      else if a0 == sys_user_base + 2
      then sys_user_allocate_page
      else if a0 == sys_user_base + 3
      then sys_user_free_page a1
      else if a0 == sys_user_base + 4
      then sys_user_fork
      else if a0 == sys_user_base + 5
      then sys_user_yield
      else if a0 == sys_user_base + 10 || a0 == sys_user_base + 11 || a0 == sys_user_base + 12
      then sys_user_sem
      else if a0 == sys_user_base + 13
      then sys_user_printpa a1
      else stop panicked
