-- ===== src/System/Orderly.antt =====
-- What holds whenever user mode runs: the ready queue is in order, and processes only move on from
-- state to state.
use pke.Base.{
  Cmd, and_then, ℕ, ◌<◌, ◌≤◌, ◌≡◌, ◌≢◌, refl, ◌∙◌, sym, ap, true, ◌==◌, ==_refl, Bool-cases, inl,
  inr, List, [], ◌∷◌, has, Option, none, some, arith, Always, Always-bind, Always-mono, fine,
  stopped, Leaves-Always,
}
use pke.Kernel.{Process, ProcStatus, Kernel, nproc, write_proc, deref}
use pke.Sched.Queue.{IsQueue, Linked-same}
use pke.Sched.Next.{Image, schedule, nothing_ready, any_unfinished, schedule-Runs}
use pke.System.Still.{Still}
use pke.Process.Pool.{free_process}
use pke.Trap.Syscall.{sys_user_exit}

-- The states in the order of `enum proc_status`.
abbrev pub rank : ProcStatus → ℕ
rank ProcStatus.free = 0
rank ProcStatus.ready = 1
rank ProcStatus.running = 2
rank ProcStatus.blocked = 3
rank ProcStatus.zombie = 4

-- No process goes back.
abbrev pub Forward : Kernel → Kernel → Type 0
Forward k t = (p : ℕ) → rank (k.procs p).status ≤ rank (t.procs p).status

-- The ready queue is in order and holds processes of the pool.
pub record Queued (k : Kernel) : Type 0 where
  pub queue : List ℕ
  pub is_queue : IsQueue k queue
  pub pool : (p : ℕ) → has p queue ≡ true → p < nproc

-- And the running process is RUNNING.
pub record Orderly (k : Kernel) : Type 0 where
  pub queued : Queued k
  pub runs : (c : ℕ) → k.current ≡ some c → (k.procs c).status ≡ ProcStatus.running

pub record Kept (k t : Kernel) : Type 0 where
  pub orderly : Orderly t
  pub forward : Forward k t

pub Kept-trans : {k t u : Kernel} → Forward k t → Kept t u → Kept k u
Kept-trans f kept = record {
  orderly = kept.orderly;
  forward = λ p. omega (arith, f p, kept.forward p);
}

pub Still-Forward : {k t : Kernel} → Still k t → Forward k t
Still-Forward still p = rw (still.status p) (omega arith)

Still-Queued : {k t : Kernel} → Queued k → Still k t → Queued t
Still-Queued {k} {t} q still = record {
  queue = q.queue;
  is_queue = record {
    linked =
        rw (still.head)
          (Linked-same k.procs t.procs still.link k.ready_queue_head q.queue q.is_queue.linked);
    distinct = q.is_queue.distinct;
    within = q.is_queue.within;
    all_ready = λ p h. still.status p ∙ q.is_queue.all_ready p h;
  };
  pool = q.pool;
}

pub Still-Kept : {k t : Kernel} → Orderly k → Still k t → Kept k t
Still-Kept o still = record {
  orderly = record {
    queued = Still-Queued o.queued still;
    runs = λ c e. still.status c ∙ o.runs c (sym still.current ∙ e);
  };
  forward = Still-Forward still;
}

nothing_ready-Kept : (k : Kernel) → Always (Kept k) (nothing_ready k)
unfolding nothing_ready
nothing_ready-Kept k = elim (Bool-cases (any_unfinished nproc k.procs)) [
  | inl some_left ↦ rw some_left stopped
  | inr all_done ↦ rw all_done stopped
]

-- schedule starts the head of the queue, or does not come back.
pub schedule-Kept : (im : Image) (k : Kernel) → Queued k → Always (Kept k) (schedule im k)
unfolding schedule
schedule-Kept im k q = go q.queue q.is_queue q.pool
  where
    go :
        (xs : List ℕ)
        → IsQueue k xs
        → ((p : ℕ) → has p xs ≡ true → p < nproc)
        → Always (Kept k) (schedule im k)
    go [] is_queue pool = simp (is_queue.linked, schedule) (nothing_ready-Kept k)
    go (x ∷ xs) is_queue pool = Leaves-Always (schedule-Runs im k x xs is_queue) λ t r. record {
      orderly = record {
        queued = record { queue = xs; is_queue = r.queue; pool = λ p h. pool p (ground arith) };
        runs = λ c e. cc (r.running);
      };
      forward = λ p. elim (Bool-cases (p == x)) [
        | inl here ↦
            let e : p ≡ x = ground arith in
            let before : (k.procs p).status ≡ ProcStatus.ready =
              is_queue.all_ready p (rw e (rw (==_refl x) refl)) in
            let after : (t.procs p).status ≡ ProcStatus.running = rw e r.running in
            rw (before, after) (omega arith)
        | inr other ↦
            let ne : p ≢ x = ground arith in
            rw (ap (λ (q : Process). q.status) (r.others p ne)) (omega arith)
      ];
    }

-- Through a pointer that is not null.
pub deref-bind :
    {B : Type 0} {P : Kernel → Type 0} (o : Option ℕ) (k : Kernel) (f : ℕ → Cmd Kernel B)
    → ((c : ℕ) → o ≡ some c → Always P (f c k))
    → Always P (and_then (deref o k) f)
unfolding deref
deref-bind none k f next = stopped
deref-bind (some c) k f next = next c refl

-- The running process becomes a ZOMBIE; it is not in the queue.
abbrev pub ended : ℕ → Kernel → Kernel
ended c k = write_proc c (record (k.procs c) { status = ProcStatus.zombie }) k

module _ (k : Kernel) (c : ℕ) (o : Orderly k) (was : (k.procs c).status ≡ ProcStatus.running) where
  pub ended-IsQueue : IsQueue (ended c k) o.queued.queue
  ended-IsQueue = record {
    linked =
        Linked-same k.procs (ended c k).procs (λ p. ground arith) k.ready_queue_head o.queued.queue
          o.queued.is_queue.linked;
    distinct = o.queued.is_queue.distinct;
    within = o.queued.is_queue.within;
    all_ready = λ p h.
        let r : (k.procs p).status ≡ ProcStatus.ready = o.queued.is_queue.all_ready p h in
        let ne : p ≢ c = λ q. let z : (k.procs p).status ≡ ProcStatus.running = rw q was in cc in
        ground (arith, r);
  }

  ended-Queued : Queued (ended c k)
  ended-Queued = record { queue = o.queued.queue; is_queue = ended-IsQueue; pool = o.queued.pool }

  ended-Forward : Forward k (ended c k)
  ended-Forward p = elim (Bool-cases (p == c)) [
    | inl here ↦ (let q : p ≡ c = ground arith in rw (q, was, ==_refl c) (omega arith))
    | inr other ↦ rw other (omega arith)
  ]

-- sys_user_exit ends the running process, and the next one starts.
pub sys_user_exit-Kept :
    (im : Image) (k : Kernel) → Orderly k → Always (Kept k) (sys_user_exit im k)
unfolding sys_user_exit free_process
sys_user_exit-Kept im k o = deref-bind k.current k _ λ c e.
    Always-bind
      (Always-mono (schedule-Kept im (ended c k) (ended-Queued k c o (o.runs c e)))
        (λ t kept. Kept-trans (ended-Forward k c o (o.runs c e)) kept))
      λ _ t kept. fine kept
