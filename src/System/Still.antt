-- ===== src/System/Still.antt =====
-- Commands of the kernel that leave the states and the queue of the processes alone.
use pke.Base.{
  ℕ, zero, suc, ◌+◌, ◌-◌, ◌%◌, ◌^◌, ◌≡◌, refl, Bool, true, false, ◌==◌, leb, ltb, not, ◌&&◌, ◌||◌,
  arith, Run, Cmd, ok, to_user, halt, Always, fine, away, stopped, Always-bind, Always-if,
  Always-ensure, Bool-cases, Option-cases, inl, inr, panicked,
}
use pke.Pmm.State.{Pmm, page_size}
use pke.Pmm.Cache.{alloc_page, pfree}
use pke.Kernel.{
  Kernel, Process, write_proc, load, store, zero_words, copy_words, on_pmm, on_pmm_result,
}
use pke.Vmm.Pte.{pte_v, has_flag, pte_to_pa, max_va}
use pke.Vmm.Walk.{entry, cas_zero, hang_table, new_table, next_table, walk_down, page_walk}
use pke.Vmm.Maps.{
  map_page, map_loop, map_pages, user_vm_map, lookup_pa, user_va_to_pa, unmap_page, unmap_loop,
  user_vm_unmap,
}

-- The states of all processes, their queue and the running process are as in `k`.
pub record Still (k t : Kernel) : Type 0 where
  pub head : t.ready_queue_head ≡ k.ready_queue_head
  pub current : t.current ≡ k.current
  pub status : (p : ℕ) → (t.procs p).status ≡ (k.procs p).status
  pub link : (p : ℕ) → (t.procs p).queue_next ≡ (k.procs p).queue_next

pub Still-refl : (k : Kernel) → Still k k
Still-refl k = record { head = refl; current = refl; status = λ p. refl; link = λ p. refl }

module _ (k₀ : Kernel) where
  -- What memory and the page allocator hold is no matter.
  pub Still-store : (a v : ℕ) (k : Kernel) → Still k₀ k → Always (Still k₀) (store a v k)
  unfolding store
  Still-store a v k h =
      fine (record { head = h.head; current = h.current; status = h.status; link = h.link })

  Still-pmm :
      {A : Type 0} (k : Kernel) (r : Run Pmm A) → Still k₀ k → Always (Still k₀) (on_pmm_result k r)
  unfolding on_pmm_result
  Still-pmm k (ok a m) h =
      fine (record { head = h.head; current = h.current; status = h.status; link = h.link })
  Still-pmm k (to_user m) h =
      away (record { head = h.head; current = h.current; status = h.status; link = h.link })
  Still-pmm k (halt e) h = stopped

  pub on_pmm-Still :
      {A : Type 0} (c : Cmd Pmm A) (k : Kernel) → Still k₀ k → Always (Still k₀) (on_pmm c k)
  unfolding on_pmm
  on_pmm-Still c k h = Still-pmm k (c k.pmm) h

  pub zero_words-Still :
      (a len : ℕ) (k : Kernel) → Still k₀ k → Always (Still k₀) (zero_words a len k)
  unfolding zero_words
  zero_words-Still a len k h =
      fine (record { head = h.head; current = h.current; status = h.status; link = h.link })

  pub copy_words-Still :
      (dst src len : ℕ) (k : Kernel) → Still k₀ k → Always (Still k₀) (copy_words dst src len k)
  unfolding copy_words
  copy_words-Still dst src len k h =
      fine (record { head = h.head; current = h.current; status = h.status; link = h.link })

  cas_zero-Still : (pte v : ℕ) (k : Kernel) → Still k₀ k → Always (Still k₀) (cas_zero pte v k)
  unfolding cas_zero
  cas_zero-Still pte v k h = elim (Bool-cases (k.mem pte == 0)) [
    | inl free ↦ rw (free, cas_zero) (Always-bind (Still-store pte v k h) λ _ s hs. fine hs)
    | inr taken ↦ rw (taken, cas_zero) (fine h)
  ]

  hang_table-Still :
      (pte pt : ℕ) (k : Kernel) → Still k₀ k → Always (Still k₀) (hang_table pte pt k)
  unfolding hang_table load
  hang_table-Still pte pt k h = Always-bind (cas_zero-Still pte _ k h) λ taken s hs.
      Always-if taken _ _ s (Always-bind (zero_words-Still pt page_size s hs) λ _ t ht. fine ht)
        (Always-bind (on_pmm-Still (pfree pt) s hs) λ _ t ht. fine ht)

  new_table-Still : (pte : ℕ) (k : Kernel) → Still k₀ k → Always (Still k₀) (new_table pte k)
  unfolding new_table
  new_table-Still pte k h =
      Always-bind (on_pmm-Still alloc_page k h)
        λ pt s hs. Always-if (pt == 0) _ _ s (fine hs) (hang_table-Still pte pt s hs)

  next_table-Still :
      (pt level va : ℕ) (alloc : Bool) (k : Kernel)
      → Still k₀ k
      → Always (Still k₀) (next_table pt level va alloc k)
  unfolding next_table load
  next_table-Still pt level va alloc k h =
      Always-if (has_flag (k.mem (entry pt level va)) pte_v) _ _ k (fine h)
        (Always-if alloc _ _ k (new_table-Still (entry pt level va) k h) (fine h))

  walk_down-Still :
      (rounds level va : ℕ) (alloc : Bool) (pt : ℕ) (k : Kernel)
      → Still k₀ k
      → Always (Still k₀) (walk_down rounds level va alloc pt k)
  unfolding walk_down
  walk_down-Still zero level va alloc pt k h = fine h
  walk_down-Still (suc rounds) level va alloc pt k h =
      Always-bind (next_table-Still pt level va alloc k h) λ t s hs. elim (Option-cases t) [
        | inl e ↦ rw e (fine hs)
        | inr (pt', e) ↦ rw e (walk_down-Still rounds (level - 1) va alloc pt' s hs)
      ]

  pub page_walk-Still :
      (page_dir va level : ℕ) (alloc : Bool) (k : Kernel)
      → Still k₀ k
      → Always (Still k₀) (page_walk page_dir va level alloc k)
  unfolding page_walk
  page_walk-Still page_dir va level alloc k h =
      Always-bind (Always-ensure (ltb 0 va && ltb va max_va) panicked k h) λ _ s hs.
        Always-bind (walk_down-Still (2 - level) 2 va alloc page_dir s hs) λ t u hu. fine hu

  map_page-Still :
      (page_dir va pa perm : ℕ) (k : Kernel)
      → Still k₀ k
      → Always (Still k₀) (map_page page_dir va pa perm k)
  unfolding map_page load
  map_page-Still page_dir va pa perm k h =
      Always-bind (page_walk-Still page_dir va 0 true k h) λ pte s hs.
        Always-if (pte == 0) _ _ s (fine hs) (
          Always-bind (Always-ensure (not (has_flag (s.mem pte) pte_v)) panicked s hs)
            λ _ t ht. Always-bind (Still-store pte _ t ht) λ _ u hu. fine hu)

  map_loop-Still :
      (fuel page_dir first stop_at pa perm : ℕ) (k : Kernel)
      → Still k₀ k
      → Always (Still k₀) (map_loop fuel page_dir first stop_at pa perm k)
  unfolding map_loop
  map_loop-Still zero page_dir first stop_at pa perm k h = stopped
  map_loop-Still (suc fuel) page_dir first stop_at pa perm k h =
      elim (Bool-cases (leb first stop_at)) [
        | inl more ↦
            rw (more, map_loop)
              (Always-bind (map_page-Still page_dir first pa perm k h) λ fine_page s hs.
                elim (Bool-cases fine_page) [
                  | inl e ↦ rw e (
                      map_loop-Still fuel page_dir ((first + page_size) % 2 ^ 64) stop_at
                        ((pa + page_size) % 2 ^ 64) perm s hs)
                  | inr e ↦ rw e (fine hs)
                ])
        | inr done ↦ rw (done, map_loop) (fine h)
      ]

  pub user_vm_map-Still :
      (page_dir va size pa perm : ℕ) (k : Kernel)
      → Still k₀ k
      → Always (Still k₀) (user_vm_map page_dir va size pa perm k)
  unfolding user_vm_map map_pages
  user_vm_map-Still page_dir va size pa perm k h =
      Always-bind (map_loop-Still _ page_dir _ _ pa perm k h)
        λ b s hs. Always-ensure b panicked s hs

  pub lookup_pa-Still :
      (pagetable va : ℕ) (k : Kernel) → Still k₀ k → Always (Still k₀) (lookup_pa pagetable va k)
  unfolding lookup_pa load
  lookup_pa-Still pagetable va k h =
      Always-if (leb max_va va) _ _ k (fine h)
        (Always-bind (page_walk-Still pagetable va 0 false k h) λ pte s hs. fine hs)

  pub user_va_to_pa-Still :
      (page_dir va : ℕ) (k : Kernel) → Still k₀ k → Always (Still k₀) (user_va_to_pa page_dir va k)
  unfolding user_va_to_pa load
  user_va_to_pa-Still page_dir va k h =
      Always-bind (page_walk-Still page_dir va 0 false k h) λ pte s hs. fine hs

  unmap_page-Still :
      (page_dir va : ℕ) (free : Bool) (k : Kernel)
      → Still k₀ k
      → Always (Still k₀) (unmap_page page_dir va free k)
  unfolding unmap_page load
  unmap_page-Still page_dir va free k h =
      Always-bind (page_walk-Still page_dir va 0 false k h) λ pte s hs.
        Always-if (pte == 0 || not (has_flag (s.mem pte) pte_v)) _ _ s (fine hs) (
          Always-bind
            (Always-if free _ _ s (on_pmm-Still (pfree (pte_to_pa (s.mem pte))) s hs) (fine hs))
            λ _ t ht. Still-store pte 0 t ht)

  unmap_loop-Still :
      (fuel page_dir va stop_at : ℕ) (free : Bool) (k : Kernel)
      → Still k₀ k
      → Always (Still k₀) (unmap_loop fuel page_dir va stop_at free k)
  unfolding unmap_loop
  unmap_loop-Still zero page_dir va stop_at free k h = stopped
  unmap_loop-Still (suc fuel) page_dir va stop_at free k h = elim (Bool-cases (ltb va stop_at)) [
    | inl more ↦
        rw (more, unmap_loop)
          (Always-bind (unmap_page-Still page_dir va free k h)
            λ _ s hs. unmap_loop-Still fuel page_dir ((va + page_size) % 2 ^ 64) stop_at free s hs)
    | inr done ↦ rw (done, unmap_loop) (fine h)
  ]

  pub user_vm_unmap-Still :
      (page_dir va size : ℕ) (free : Bool) (k : Kernel)
      → Still k₀ k
      → Always (Still k₀) (user_vm_unmap page_dir va size free k)
  unfolding user_vm_unmap
  user_vm_unmap-Still page_dir va size free k h = unmap_loop-Still _ page_dir _ _ free k h

  -- A process changes, but for its state and its place in the queue.
  pub Still-write :
      (i : ℕ) (p : Process) (k : Kernel)
      → p.status ≡ (k.procs i).status
      → p.queue_next ≡ (k.procs i).queue_next
      → Still k₀ k
      → Still k₀ (write_proc i p k)
  Still-write i p k es el h = record {
    head = h.head;
    current = h.current;
    status = λ q. ground (arith, h.status q, es);
    link = λ q. ground (arith, h.link q, el);
  }
