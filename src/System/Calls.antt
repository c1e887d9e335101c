-- ===== src/System/Calls.antt =====
-- System calls that leave the states and the queue of the processes alone.
use pke.Base.{
  ℕ, ◌-◌, refl, true, false, ◌==◌, not, ltb, Option, none, some, Always, fine, stopped, Always-bind,
  Always-if, Always-ensure, Bool-cases, Option-cases, inl, inr, faulted, get_elem?, length,
}
use pke.Pmm.State.{page_size}
use pke.Pmm.Cache.{alloc_page}
use pke.Kernel.{HeapManager, Kernel, load, deref}
use pke.Trap.Syscall.{
  sys_user_print, pop_free_page, grow_heap, sys_user_allocate_page, push_free_page,
  sys_user_free_page, sys_user_printpa,
}
use pke.System.Still.{
  Still, Still-store, on_pmm-Still, page_walk-Still, user_vm_map-Still, user_va_to_pa-Still,
  user_vm_unmap-Still, Still-write,
}

module _ (k₀ : Kernel) where
  pub deref-Still : (o : Option ℕ) (k : Kernel) → Still k₀ k → Always (Still k₀) (deref o k)
  unfolding deref
  deref-Still none k h = stopped
  deref-Still (some p) k h = fine h

  pub sys_user_print-Still :
      (buf : ℕ) (k : Kernel) → Still k₀ k → Always (Still k₀) (sys_user_print buf k)
  unfolding sys_user_print
  sys_user_print-Still buf k h = elim (Option-cases k.current) [
    | inl e ↦ simp (e, sys_user_print) stopped
    | inr (c, e) ↦
        simp (e, sys_user_print)
          (Always-bind (user_va_to_pa-Still k₀ (k.procs c).pagetable buf k h)
            λ pa s hs. Always-bind (Always-ensure (not (pa == 0)) faulted s hs) λ _ t ht. fine ht)
  ]

  pop_free_page-Still : (c : ℕ) (k : Kernel) → Still k₀ k → Always (Still k₀) (pop_free_page c k)
  unfolding pop_free_page
  pop_free_page-Still c k h =
      let heap : HeapManager = (k.procs c).user_heap in
      elim (Option-cases (get_elem? heap.free_pages_address (heap.free_pages_count - 1))) [
        | inl e ↦ rw (e, pop_free_page) stopped
        | inr (va, e) ↦
            rw (e, pop_free_page)
              (elim (Bool-cases (ltb va heap.heap_top)) [
                | inl below ↦ rw below (fine (Still-write k₀ c _ k refl refl h))
                | inr above ↦ rw above stopped
              ])
      ]

  grow_heap-Still : (c : ℕ) (k : Kernel) → Still k₀ k → Always (Still k₀) (grow_heap c k)
  unfolding grow_heap load
  grow_heap-Still c k h =
      Always-bind (Still-store k₀ _ _ _ (Still-write k₀ c _ k refl refl h)) λ _ t ht. fine ht

  pub sys_user_allocate_page-Still :
      (k : Kernel) → Still k₀ k → Always (Still k₀) (sys_user_allocate_page k)
  unfolding sys_user_allocate_page
  sys_user_allocate_page-Still k h = Always-bind (on_pmm-Still k₀ alloc_page k h) λ pa s hs.
      Always-bind (deref-Still s.current s hs) λ c t ht.
        Always-bind
          (Always-if (ltb 0 (s.procs c).user_heap.free_pages_count) _ _ t
            (pop_free_page-Still c t ht) (grow_heap-Still c t ht))
          λ va u hu.
            Always-bind (user_vm_map-Still k₀ (s.procs c).pagetable va page_size pa _ u hu)
              λ _ v hv. fine hv

  push_free_page-Still :
      (c va : ℕ) (k : Kernel) → Still k₀ k → Always (Still k₀) (push_free_page c va k)
  unfolding push_free_page
  push_free_page-Still c va k h =
      Always-bind
        (Always-ensure
          (ltb (k.procs c).user_heap.free_pages_count
            (length (k.procs c).user_heap.free_pages_address))
          faulted k h)
        λ _ s hs. fine (Still-write k₀ c _ s refl refl hs)

  pub sys_user_free_page-Still :
      (va : ℕ) (k : Kernel) → Still k₀ k → Always (Still k₀) (sys_user_free_page va k)
  unfolding sys_user_free_page
  sys_user_free_page-Still va k h = Always-bind (deref-Still k.current k h) λ c s hs.
      Always-bind (user_vm_unmap-Still k₀ _ va page_size true s hs)
        λ _ t ht. Always-bind (push_free_page-Still c va t ht) λ _ u hu. fine hu

  pub sys_user_printpa-Still :
      (va : ℕ) (k : Kernel) → Still k₀ k → Always (Still k₀) (sys_user_printpa va k)
  unfolding sys_user_printpa load
  sys_user_printpa-Still va k h =
      Always-bind (deref-Still k.current k h)
        λ c s hs. Always-bind (page_walk-Still k₀ _ va 0 false s hs) λ pte t ht. fine ht
