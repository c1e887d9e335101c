-- ===== src/System/Traps.antt =====
-- do_fork and the system calls keep the processes in order.
use pke.Base.{
  ℕ, ◌+◌, ◌<◌, ◌≤◌, ◌≡◌, ◌≢◌, refl, ◌∙◌, sym, true, false, ◌==◌, ◌||◌, Bool-cases, inl, inr, List,
  [], ◌∷◌, ◌++◌, has, has-append, length, length-le_of_Distinct, append-Distinct, arith, Cmd,
  Always, fine, stopped, Always-bind, Always-mono, Always-if, Always-Partly-bind, Returns-Always,
  Partly, partly, Partly-bind, Partly-any,
}
use pke.Kernel.{ProcStatus, Kernel, nproc, load, store}
use pke.Sched.Queue.{IsQueue}
use pke.Sched.Next.{Image}
use pke.Process.Pool.{is_free, init_pages, init_regions, init_process}
use pke.Process.Slots.{alloc_process-first}
use pke.Process.Fork.{fork_regions, finish_fork, do_fork}
use pke.Process.Forked.{finish_fork-Queued}
use pke.Trap.Syscall.{do_syscall, sys_user_fork, sys_user_yield, sys_user_sem, sys_user_base}
use pke.Trap.Handler.{handle_syscall}
use pke.System.Still.{Still, Still-refl, Still-store}
use pke.System.Calls.{
  sys_user_print-Still, sys_user_allocate_page-Still, sys_user_free_page-Still,
  sys_user_printpa-Still,
}
use pke.System.Forking.{init_process-Still, fork_regions-Still}
use pke.System.Orderly.{
  Orderly, Kept, Kept-trans, Still-Forward, Still-Kept, deref-bind, sys_user_exit-Kept,
}

free_status : (s : ProcStatus) → is_free s ≡ true → s ≡ ProcStatus.free
unfolding is_free
free_status ProcStatus.free h = refl
free_status ProcStatus.ready h = cc
free_status ProcStatus.running h = cc
free_status ProcStatus.blocked h = cc
free_status ProcStatus.zombie h = cc

init_process-value : (im : Image) (i : ℕ) (k : Kernel) → Partly (λ j _. j ≡ i) (init_process im i k)
unfolding init_process
init_process-value im i k =
    Partly-bind (Partly-any (init_pages i k))
      λ us s _. Partly-bind (Partly-any (init_regions im i us s)) λ _ t _. partly refl

-- The child, a free slot of the pool, becomes READY behind the queue; all else is as before.
finish_fork-Kept :
    (im : Image) (get_page : ℕ → Cmd Kernel (Unit {0})) (parent child : ℕ) (k : Kernel)
    → Orderly k
    → child < nproc
    → (k.procs child).status ≡ ProcStatus.free
    → Always (Kept k) (finish_fork im get_page parent child k)
finish_fork-Kept im get_page parent child k o lt free =
    let xs : List ℕ = o.queued.queue in
    let q : IsQueue k xs = o.queued.is_queue in
    let out : has child xs ≡ false = elim (Bool-cases (has child xs)) [
      | inl there ↦ (let r = q.all_ready child there in cc)
      | inr missing ↦ missing
    ] in
    let all : List ℕ = xs ++ (child ∷ []) in
    let pool : (p : ℕ) → has p all ≡ true → p < nproc =
      λ p h. ground (arith, has-append p xs (child ∷ []), o.queued.pool p) in
    let room : length all ≤ nproc =
      length-le_of_Distinct nproc all (append-Distinct child xs q.distinct out) pool in
    Returns-Always (finish_fork-Queued im get_page parent child k xs q out room)
      λ pid t (_, is_queue, _, _, _, _, current, others).
        let waits : (t.procs child).status ≡ ProcStatus.ready =
          is_queue.all_ready child (ground (arith, has-append child xs (child ∷ []))) in
        record {
          orderly = record {
            queued = record { queue = all; is_queue = is_queue; pool = pool };
            runs = λ c e.
                let r : (k.procs c).status ≡ ProcStatus.running = o.runs c (sym current ∙ e) in
                let ne : c ≢ child =
                  λ same. let f : (k.procs c).status ≡ ProcStatus.free = rw same free in cc in
                others c ne ∙ r;
          };
          forward = λ p. elim (Bool-cases (p == child)) [
            | inl here ↦ (let e : p ≡ child = ground arith in rw (e, free) (omega arith))
            | inr other ↦ (let ne : p ≢ child = ground arith in rw (others p ne) (omega arith))
          ];
        }

module _ (im : Image) (get_page : ℕ → Cmd Kernel (Unit {0}))
    (counts : (k₀ : Kernel) (pa : ℕ) (k : Kernel)
      → Still k₀ k
      → Always (Still k₀) (get_page pa k)) where
  do_fork-Kept :
      (parent : ℕ) (k : Kernel) → Orderly k → Always (Kept k) (do_fork im get_page parent k)
  unfolding do_fork
  do_fork-Kept parent k o = elim (alloc_process-first im k) [
    | inl (i, lt, free, _, run) ↦ rw run (
        Always-Partly-bind (init_process-Still k im i k (Still-refl k)) (init_process-value im i k)
          (λ s hs. Still-Kept o hs)
          λ j s hs same.
            Always-Partly-bind
              (fork_regions-Still k im get_page (counts k) (s.procs parent).total_mapped_region
                parent j 0 s hs)
              (Partly-any
                (fork_regions im get_page (s.procs parent).total_mapped_region parent j 0 s))
              (λ t ht. Still-Kept o ht)
              λ _ t ht _.
                Always-mono
                  (finish_fork-Kept im get_page parent j t (Still-Kept o ht).orderly (rw same lt)
                    (ht.status j ∙ rw same (free_status _ free)))
                  λ u kept. Kept-trans (Still-Forward ht) kept)
    | inr (_, full) ↦ rw full stopped
  ]

  sys_user_fork-Kept : (k : Kernel) → Orderly k → Always (Kept k) (sys_user_fork im get_page k)
  unfolding sys_user_fork
  sys_user_fork-Kept k o = deref-bind k.current k _ λ c e. do_fork-Kept c k o

  -- Every system call.
  do_syscall-Kept :
      (a0 a1 : ℕ) (k : Kernel) → Orderly k → Always (Kept k) (do_syscall im get_page a0 a1 k)
  unfolding do_syscall sys_user_yield sys_user_sem
  do_syscall-Kept a0 a1 k o =
      let same = Still-refl k in
      let still = λ (t : Kernel) (h : Still k t). Still-Kept o h in
      Always-if (a0 == sys_user_base + 0) _ _ k
        (Always-mono (sys_user_print-Still k a1 k same) still)
        (Always-if (a0 == sys_user_base + 1) _ _ k (sys_user_exit-Kept im k o) (
          Always-if (a0 == sys_user_base + 2) _ _ k
            (Always-mono (sys_user_allocate_page-Still k k same) still)
            (Always-if (a0 == sys_user_base + 3) _ _ k
              (Always-mono (sys_user_free_page-Still k a1 k same) still)
              (Always-if (a0 == sys_user_base + 4) _ _ k (sys_user_fork-Kept k o) (
                Always-if (a0 == sys_user_base + 5) _ _ k stopped (
                  Always-if
                    (a0 == sys_user_base + 10
                      || a0 == sys_user_base + 11
                      || a0 == sys_user_base + 12)
                    _ _ k (fine (still k same))
                    (Always-if (a0 == sys_user_base + 13) _ _ k
                      (Always-mono (sys_user_printpa-Still k a1 k same) still) stopped)))))))

  module _ (get_page_ref : ℕ → Kernel → ℕ) where
    pub handle_syscall-Kept :
        (tf : ℕ) (k : Kernel)
        → Orderly k
        → Always (Kept k) (handle_syscall im get_page get_page_ref tf k)
    unfolding handle_syscall load
    handle_syscall-Kept tf k o =
        Always-Partly-bind (Still-store k _ _ k (Still-refl k)) (Partly-any (store _ _ k))
          (λ s hs. Still-Kept o hs)
          λ _ s hs _.
            Always-bind
              (Always-mono (do_syscall-Kept _ _ s (Still-Kept o hs).orderly)
                λ t kept. Kept-trans (Still-Forward hs) kept)
              λ r t kept.
                Always-mono (Still-store t _ r t (Still-refl t))
                  λ u hu. Kept-trans kept.forward (Still-Kept kept.orderly hu)
