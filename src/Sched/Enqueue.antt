-- ===== src/Sched/Enqueue.antt =====
-- What insert_to_ready_queue of kernel/sched.c leaves alone.
use pke.Base.{
  ℕ, zero, suc, ◌≡◌, ◌≢◌, refl, ◌==◌, Bool-cases, inl, inr, Option, none, some, arith, halted,
  Partly, partly, gone, Partly-bind, Partly-mono,
}
use pke.Kernel.{Kernel, nproc}
use pke.Sched.Queue.{
  Browse, already_in, last_is, browse, insert_first, insert_after, insert_found,
  insert_to_ready_queue,
}

-- What insert_to_ready_queue leaves alone.
pub record Keeps (proc : ℕ) (k t : Kernel) : Type 0 where
  pub mem : t.mem ≡ k.mem
  pub pid : (p : ℕ) → (t.procs p).pid ≡ (k.procs p).pid
  pub parent : (p : ℕ) → (t.procs p).parent ≡ (k.procs p).parent
  pub current : t.current ≡ k.current
  pub others : (p : ℕ) → p ≢ proc → (t.procs p).status ≡ (k.procs p).status

Keeps-refl : (proc : ℕ) (k : Kernel) → Keeps proc k k
Keeps-refl proc k = record {
  mem = refl;
  pid = λ p. refl;
  parent = λ p. refl;
  current = refl;
  others = λ p ne. refl;
}

insert_first-Keeps : (proc : ℕ) (k : Kernel) → Keeps proc k (insert_first proc k)
unfolding insert_first
insert_first-Keeps proc k = record {
  mem = refl;
  pid = λ p. ground arith;
  parent = λ p. ground arith;
  current = refl;
  others = λ p ne. ground arith;
}

-- The last element of the queue only gets its link.
insert_after-Keeps : (q proc : ℕ) (k : Kernel) → Keeps proc k (insert_after q proc k)
unfolding insert_after
insert_after-Keeps q proc k = record {
  mem = refl;
  pid = λ p. ground arith;
  parent = λ p. ground arith;
  current = refl;
  others = λ p ne. ground arith;
}

insert_found-Keeps :
    (proc : ℕ) (b : Browse) (k : Kernel) → Partly (λ _ t. Keeps proc k t) (insert_found proc b k)
unfolding insert_found
insert_found-Keeps proc already_in k = partly (Keeps-refl proc k)
insert_found-Keeps proc (last_is p) k = elim (Bool-cases (p == proc)) [
  | inl here ↦ rw here (partly (Keeps-refl proc k))
  | inr other ↦ rw other (partly (insert_after-Keeps p proc k))
]

browse-keeps : (fuel proc p : ℕ) (k : Kernel) → Partly (λ _ t. t ≡ k) (browse fuel proc p k)
unfolding browse
browse-keeps zero proc p k = gone halted
browse-keeps (suc fuel) proc p k =
    by_link (k.procs p).queue_next refl (λ q. browse-keeps fuel proc q k)
  where
    by_link :
        (o : Option ℕ)
        → (k.procs p).queue_next ≡ o
        → ((q : ℕ) → Partly (λ _ t. t ≡ k) (browse fuel proc q k))
        → Partly (λ _ t. t ≡ k) (browse (suc fuel) proc p k)
    by_link none e rest = rw (e, browse) (partly refl)
    by_link (some q) e rest = elim (Bool-cases (p == proc)) [
      | inl here ↦ rw (e, browse, here) (partly refl)
      | inr other ↦ rw (e, browse, other) (rest q)
    ]

Keeps-head :
    {proc : ℕ} {k t : Kernel} (o : Option ℕ)
    → Keeps proc k t
    → Keeps proc (record k { ready_queue_head = o }) t
Keeps-head o kept = record {
  mem = kept.mem;
  pid = kept.pid;
  parent = kept.parent;
  current = kept.current;
  others = kept.others;
}

pub insert_to_ready_queue-Keeps :
    (proc : ℕ) (k : Kernel) (o : Option ℕ)
    → k.ready_queue_head ≡ o
    → Partly (λ _ t. Keeps proc k t) (insert_to_ready_queue proc k)
unfolding insert_to_ready_queue
insert_to_ready_queue-Keeps proc k none e =
    rw (e, insert_to_ready_queue) (partly (Keeps-head none (insert_first-Keeps proc k)))
insert_to_ready_queue-Keeps proc k (some h) e =
    rw (e, insert_to_ready_queue)
      (Partly-bind (browse-keeps nproc proc h k) (λ b t same.
        rw same (Partly-mono (insert_found-Keeps proc b k) (λ _ u kept. Keeps-head (some h) kept))))
