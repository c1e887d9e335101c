-- ===== src/System/Start.antt =====
-- The start of the first process, and all that comes after it.
use pke.Base.{
  ℕ, ◌≡◌, refl, ◌∙◌, ltb, [], ◌∷◌, none, some, arith, Cmd, to_user, Always, fine, Always-bind,
  Always-mono, Always-Partly-bind, Always-to_user, Partly, partly, Partly-bind, Partly-any, Returns,
  Returns-mono, Returns-bind_Always, if◌then◌else◌,
}
use pke.Kernel.{Kernel, nproc}
use pke.Sched.Queue.{IsQueue, insert_to_ready_queue, insert_to_ready_queue-IsQueue}
use pke.Sched.Next.{Image}
use pke.Process.Pool.{
  zero_process, init_proc_pool, is_free, find_free, alloc_process, init_process, init_pages,
  init_regions,
}
use pke.Boot.Elf.{ElfFile, Host, load_bincode_from_host_elf}
use pke.Boot.Start.{start_user, load_user_program}
use pke.System.Still.{Still, Still-refl}
use pke.System.Forking.{init_process-Still}
use pke.System.Loading.{ReadsStill, load_bincode-Still}
use pke.System.Orderly.{Orderly, Queued, Still-Kept, schedule-Kept}
use pke.System.Reachable.{Reachable, Reachable-Orderly}

-- The pool after init_proc_pool.
abbrev fresh : Kernel → Kernel
fresh k = record k {
  procs = λ i. if ltb i nproc then record zero_process { pid = i } else k.procs i;
}

init_process-value : (im : Image) (i : ℕ) (k : Kernel) → Partly (λ a _. a ≡ i) (init_process im i k)
unfolding init_process
init_process-value im i k =
    Partly-bind (Partly-any (init_pages i k))
      λ us s _. Partly-bind (Partly-any (init_regions im i us s)) λ _ t _. partly refl

load_user_program-value :
    (im : Image) (host : Host) (k : Kernel)
    → Partly (λ p _. p ≡ 0) (load_user_program im host (fresh k))
unfolding load_user_program alloc_process find_free is_free
load_user_program-value im host k =
    Partly-bind (init_process-value im 0 (fresh k))
      λ p s e. Partly-bind (Partly-any (load_bincode_from_host_elf host p s)) λ _ t _. partly e

-- The only process in the queue.
first_in_queue :
    (s : Kernel) → s.ready_queue_head ≡ none → Returns (λ _ t. Queued t) (insert_to_ready_queue 0 s)
first_in_queue s empty =
    let alone : IsQueue s [] = record {
      linked = empty;
      distinct = tt;
      within = omega arith;
      all_ready = λ p h. ground arith;
    } in
    Returns-mono (insert_to_ready_queue-IsQueue s [] 0 alone (omega arith))
      λ _ t q. record { queue = 0 ∷ []; is_queue = q; pool = λ p h. ground arith }

-- With nobody queued and nobody running, the processes are in order.
idle-Orderly : (k : Kernel) → k.ready_queue_head ≡ none → k.current ≡ none → Orderly k
idle-Orderly k empty idle = record {
  queued = record {
    queue = [];
    is_queue = record {
      linked = empty;
      distinct = tt;
      within = omega arith;
      all_ready = λ p h. ground arith;
    };
    pool = λ p h. ground arith;
  };
  runs = λ c e. cc;
}

module _ (im : Image) (host : Host)
    (reads : (file : ElfFile) → host.file ≡ some file → ReadsStill file) where
  load_user_program-Still :
      (k : Kernel) → Always (Still (fresh k)) (load_user_program im host (fresh k))
  unfolding load_user_program alloc_process find_free is_free
  load_user_program-Still k =
      Always-bind (init_process-Still (fresh k) im 0 (fresh k) (Still-refl (fresh k)))
        λ p s hs. Always-bind (load_bincode-Still (fresh k) host reads p s hs) λ _ t ht. fine ht

  start_user-Orderly :
      (k : Kernel)
      → k.ready_queue_head ≡ none
      → k.current ≡ none
      → Always Orderly (start_user im host k)
  unfolding start_user init_proc_pool
  start_user-Orderly k empty idle =
      Always-Partly-bind (load_user_program-Still k) (load_user_program-value im host k)
        (λ s hs. (Still-Kept (idle-Orderly (fresh k) empty idle) hs).orderly)
        λ p s hs e. rw e (
          Returns-bind_Always (first_in_queue s (hs.head ∙ empty)) λ _ t q.
            Always-bind (Always-mono (schedule-Kept im t q) λ u kept. kept.orderly) λ _ u o. fine o)

  module _ (get_page : ℕ → Cmd Kernel (Unit {0})) (get_page_ref : ℕ → Kernel → ℕ)
      (counts : (k₀ : Kernel) (pa : ℕ) (k : Kernel)
        → Still k₀ k
        → Always (Still k₀) (get_page pa k)) where
    -- The machine from init_proc_pool on, when nobody waits and nobody runs before, and the reads of
    -- the program's file and get_page leave the processes alone: in every state of user mode that
    -- it reaches, whatever the programs do, the ready queue holds READY processes of the pool, each
    -- once, and the running process is RUNNING.
    pub start_user-Reachable :
        (k t u : Kernel)
        → k.ready_queue_head ≡ none
        → k.current ≡ none
        → start_user im host k ≡ to_user t
        → Reachable im get_page get_page_ref t u
        → Orderly u
    start_user-Reachable k t u empty idle started run =
        (Reachable-Orderly im get_page get_page_ref counts
          (Always-to_user (start_user-Orderly k empty idle) started) run).0
