-- ===== src/Sched/Queue.antt =====
-- The ready queue of kernel/sched.c, a list linked through `queue_next`.
use pke.Base.{
  ℕ, zero, suc, ◌∙◌, sym, ne_of_has, ◌<◌, ◌≤◌, ◌≡◌, ◌≢◌, refl, true, false, Bool-cases, inl, inr,
  Cmd, ok, halt, spinning, ◌==◌, ==_refl, if◌then◌else◌, List, [], ◌∷◌, ◌++◌, length, has, Distinct,
  append-Distinct, has-append, Option, none, some, arith, Returns, returns, and_then,
}
use pke.Kernel.{Process, ProcStatus, Kernel, nproc, write_proc}

-- How the loop that browses the queue ends: at `proc`, or at the last element.
pub data Browse : Type 0 where
  already_in : Browse
  last_is : ℕ → Browse

-- `for (p = ready_queue_head; p->queue_next != NULL; p = p->queue_next) if (p == proc) return;`,
-- with fuel; a browse that outlives it does not come back.
unfoldable pub browse : ℕ → ℕ → ℕ → Cmd Kernel Browse
browse zero proc p k = halt spinning
browse (suc fuel) proc p k = elim (k.procs p).queue_next [
  | none ↦ ok (last_is p) k
  | some q ↦ elim (p == proc) [ true ↦ ok already_in k | false ↦ browse fuel proc q k ]
]

-- What is written when the queue is empty, and when `p` is its last element.
unfoldable pub insert_first : ℕ → Kernel → Kernel
insert_first proc k =
    let k' : Kernel =
      write_proc proc (record (k.procs proc) { status = ProcStatus.ready; queue_next = none }) k in
    record k' { ready_queue_head = some proc }

unfoldable pub insert_after : ℕ → ℕ → Kernel → Kernel
insert_after p proc k =
    let k₁ : Kernel = write_proc p (record (k.procs p) { queue_next = some proc }) k in
    write_proc proc (record (k₁.procs proc) { status = ProcStatus.ready; queue_next = none }) k₁

unfoldable pub insert_found : ℕ → Browse → Cmd Kernel (Unit {0})
insert_found proc already_in k = ok tt k
insert_found proc (last_is p) k = if p == proc then ok tt k else ok tt (insert_after p proc k)

-- A queue of processes of the pool has at most NPROC elements.
unfoldable pub insert_to_ready_queue : ℕ → Cmd Kernel (Unit {0})
insert_to_ready_queue proc k = elim k.ready_queue_head [
  | none ↦ ok tt (insert_first proc k)
  | some h ↦ and_then (browse nproc proc h k) (insert_found proc)
]

-- The chain of `queue_next` from a pointer reads the list and ends in the null pointer.
abbrev pub Linked : (ℕ → Process) → Option ℕ → List ℕ → Type 0
Linked procs o [] = o ≡ none
Linked procs o (x ∷ xs) = (o ≡ some x) × Linked procs (procs x).queue_next xs

pub Linked-same :
    (procs procs' : ℕ → Process)
    → ((p : ℕ) → (procs' p).queue_next ≡ (procs p).queue_next)
    → (o : Option ℕ) (xs : List ℕ) → Linked procs o xs
    → Linked procs' o xs
Linked-same procs procs' same o [] l = l
Linked-same procs procs' same o (x ∷ xs) l =
    (l.0, rw (same x) (Linked-same procs procs' same (procs x).queue_next xs l.1))

pub record IsQueue (k : Kernel) (xs : List ℕ) : Type 0 where
  pub linked : Linked k.procs k.ready_queue_head xs
  pub distinct : Distinct xs
  pub within : length xs ≤ nproc
  pub all_ready : (p : ℕ) → has p xs ≡ true → (k.procs p).status ≡ ProcStatus.ready

-- The queue as a first-in first-out list without duplicates.
abbrev pub enqueue : ℕ → List ℕ → List ℕ
enqueue p xs = if has p xs then xs else (xs ++ (p ∷ []))

-- The last element of a nonempty list.
abbrev pub last : ℕ → List ℕ → ℕ
last x [] = x
last x (y ∷ ys) = last y ys

last-has : (x : ℕ) (xs : List ℕ) → has (last x xs) (x ∷ xs) ≡ true
last-has x [] = rw (==_refl x) refl
last-has x (y ∷ ys) = ground (arith, last-has y ys)

-- A browse reaches the last element when the process is not in the queue.
browse_out :
    (fuel proc x : ℕ) (xs : List ℕ) (k : Kernel)
    → Linked k.procs (k.procs x).queue_next xs
    → length xs < fuel
    → has proc (x ∷ xs) ≡ false
    → browse fuel proc x k ≡ ok (last_is (last x xs)) k
unfolding browse
browse_out zero proc x xs k l h out = absurd (omega arith)
browse_out (suc fuel) proc x [] k l h out = rw (l, browse) refl
browse_out (suc fuel) proc x (y ∷ ys) k (e, l) h out =
    let ne : (x == proc) ≡ false = ground arith in
    let out' : has proc (y ∷ ys) ≡ false = ground arith in
    rw (e, browse, ne) (browse_out fuel proc y ys k l (omega arith) out')

-- And it changes nothing when the process is in the queue.
browse_in :
    (fuel proc x : ℕ) (xs : List ℕ) (k : Kernel)
    → Linked k.procs (k.procs x).queue_next xs
    → length xs < fuel
    → has proc (x ∷ xs) ≡ true
    → and_then (browse fuel proc x k) (insert_found proc) ≡ ok tt k
unfolding browse insert_found
browse_in zero proc x xs k l h isin = absurd (omega arith)
browse_in (suc fuel) proc x [] k l h isin =
    let same : (x == proc) ≡ true = ground arith in rw (l, browse, same) refl
browse_in (suc fuel) proc x (y ∷ ys) k (e, l) h isin = elim (Bool-cases (x == proc)) [
  | inl here ↦ rw (e, browse, here) refl
  | inr differ ↦
      let later : has proc (y ∷ ys) ≡ true = ground arith in
      rw (e, browse, differ) (browse_in fuel proc y ys k l (omega arith) later)
]

Linked-append :
    (procs procs' : ℕ → Process) (proc x : ℕ) (xs : List ℕ)
    → Linked procs (procs x).queue_next xs
    → Distinct (x ∷ xs)
    → ((q : ℕ) → q ≢ last x xs → q ≢ proc → (procs' q).queue_next ≡ (procs q).queue_next)
    → (procs' (last x xs)).queue_next ≡ some proc
    → (procs' proc).queue_next ≡ none
    → has proc (x ∷ xs) ≡ false
    → Linked procs' (procs' x).queue_next (xs ++ (proc ∷ []))
Linked-append procs procs' proc x [] l d same at_last at_proc out = (at_last, at_proc)
Linked-append procs procs' proc x (y ∷ ys) (e, l) d same at_last at_proc out =
    let apart : x ≢ last y ys = λ q.
      let a : has (last y ys) (y ∷ ys) ≡ true = last-has y ys in
      let b : has x (y ∷ ys) ≡ false = d.0 in ne_of_has _ _ (y ∷ ys) a b (sym q) in
    let other : x ≢ proc = λ q. let b : (proc == x) ≡ true = rw q (==_refl proc) in ground arith in
    let out' : has proc (y ∷ ys) ≡ false = ground arith in
    (same x apart other ∙ e, Linked-append procs procs' proc y ys l d.1 same at_last at_proc out')

insert_first-IsQueue : (k : Kernel) (proc : ℕ) → IsQueue (insert_first proc k) (proc ∷ [])
unfolding insert_first
insert_first-IsQueue k proc = record {
  linked = (refl, rw (==_refl proc) refl);
  distinct = (refl, tt);
  within = omega arith;
  all_ready = λ p h. ground arith;
}

insert_after-IsQueue :
    (k : Kernel) (x : ℕ) (xs : List ℕ) (proc : ℕ)
    → IsQueue k (x ∷ xs)
    → has proc (x ∷ xs) ≡ false
    → length (x ∷ xs ++ (proc ∷ [])) ≤ nproc
    → IsQueue (insert_after (last x xs) proc k) (x ∷ (xs ++ (proc ∷ [])))
unfolding insert_after
insert_after-IsQueue k x xs proc q out room =
    let apart : last x xs ≢ proc = ne_of_has _ _ (x ∷ xs) (last-has x xs) out in
    record {
      linked = (
        q.linked.0,
        Linked-append k.procs (insert_after (last x xs) proc k).procs proc x xs q.linked.1
            q.distinct (λ p no_last no_proc. ground arith) (ground arith) (ground arith) out,
      );
      distinct = append-Distinct proc (x ∷ xs) q.distinct out;
      within = room;
      all_ready = λ p h. ground (arith, has-append p (x ∷ xs) (proc ∷ []), q.all_ready p);
    }

-- On a ready queue that holds the processes `xs`, each once and READY, and that has no more than
-- NPROC with the new one, insert_to_ready_queue returns with the process at the end of the queue
-- as READY; when the queue has it already, the queue stays as it was.
pub insert_to_ready_queue-IsQueue :
    (k : Kernel) (xs : List ℕ) (proc : ℕ)
    → IsQueue k xs
    → length (enqueue proc xs) ≤ nproc
    → Returns (λ _ t. IsQueue t (enqueue proc xs)) (insert_to_ready_queue proc k)
unfolding insert_to_ready_queue insert_found
insert_to_ready_queue-IsQueue k [] proc q room =
    rw (q.linked, insert_to_ready_queue) (returns (insert_first-IsQueue k proc))
insert_to_ready_queue-IsQueue k (x ∷ xs) proc q room = elim (Bool-cases (has proc (x ∷ xs))) [
  | inl isin ↦
      rw
        (
          q.linked.0,
          insert_to_ready_queue,
          browse_in nproc proc x xs k q.linked.1 (omega (arith, q.within)) isin,
          isin,
        )
        (returns q)
  | inr out ↦
      let room' : length (x ∷ xs ++ (proc ∷ [])) ≤ nproc = rw out at room in
      let apart : (last x xs == proc) ≡ false =
        (let ne : last x xs ≢ proc = ne_of_has _ _ (x ∷ xs) (last-has x xs) out in ground arith) in
      rw
        (
          q.linked.0,
          insert_to_ready_queue,
          browse_out nproc proc x xs k q.linked.1 (omega (arith, q.within)) out,
          out,
          apart,
        )
        (returns (insert_after-IsQueue k x xs proc q out room'))
]
