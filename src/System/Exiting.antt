-- ===== src/System/Exiting.antt =====
-- sys_user_exit of kernel/syscall.c: the running process ends, and the next one takes over.
use pke.Base.{
  ℕ, ◌+◌, ◌<◌, ◌≡◌, ◌≢◌, refl, ◌↔◌, true, ◌==◌, ==_refl, ne→==_false, List, [], ◌∷◌, has, some,
  arith, Run, ok, halt, shut_down, Leaves, Leaves-then, subst, Option, to_user, sym, ◌∙◌, Cmd,
  Bool-cases, inl, inr, and_then, pure,
}
use pke.Kernel.{Kernel, ProcStatus, nproc, deref}
use pke.Sched.Queue.{IsQueue}
use pke.Sched.Next.{Image, Finished, schedule, schedule-Runs, schedule-shut_down}
use pke.Process.Pool.{free_process}
use pke.Trap.Syscall.{sys_user_exit}
use pke.System.Orderly.{Orderly, ended, ended-IsQueue}
use pke.Trapframe

-- What the end of process `c` leaves when `x` is next and `xs` waits behind it.
pub record TakenOver (k : Kernel) (c x : ℕ) (xs : List ℕ) (t : Kernel) : Type 0 where
  pub ended : (t.procs c).status ≡ ProcStatus.zombie
  pub another : x ≢ c
  pub current : t.current ≡ some x
  pub running : (t.procs x).status ≡ ProcStatus.running
  pub queue : IsQueue t xs
  pub pc : t.sepc ≡ k.mem ((k.procs x).trapframe + Trapframe.epc)
  pub others : (p : ℕ) → p ≢ c → p ≢ x → t.procs p ≡ k.procs p

-- The outcome of the end of process `c` with the ready queue as it is.
abbrev pub AfterExit : Kernel → ℕ → List ℕ → Run Kernel ℕ → Type 0
AfterExit k c [] r =
    (r ≡ halt shut_down) ↔ ((p : ℕ) → p < nproc → p ≢ c → Finished (k.procs p).status)
AfterExit k c (x ∷ xs) r = Leaves (λ t. TakenOver k c x xs t) r

-- What sys_user_exit would do if schedule came back.
abbrev finish : Unit {0} → Cmd Kernel ℕ
finish u = pure 0

finish-halt : (r : Run Kernel (Unit {0})) → and_then r finish ≡ halt shut_down → r ≡ halt shut_down
finish-halt (ok u t) e = cc
finish-halt (to_user t) e = cc
finish-halt (halt h) e = cc

deref-then :
    {B : Type 0} {c : ℕ} {k : Kernel} (o : Option ℕ)
    → o ≡ some c
    → (f : ℕ → Cmd Kernel B) → and_then (deref o k) f ≡ f c k
unfolding deref
deref-then o e f = rw e refl

module _ (im : Image) (k : Kernel) (c : ℕ) (was : (k.procs c).status ≡ ProcStatus.running) where
  -- A process that waits is not the one that ran.
  another_lem : (x : ℕ) → (k.procs x).status ≡ ProcStatus.ready → x ≢ c
  another_lem x ready q = let z : (k.procs x).status ≡ ProcStatus.running = rw q was in cc

  ended-TakenOver :
      (x : ℕ) (xs : List ℕ)
      → x ≢ c
      → IsQueue (ended c k) (x ∷ xs)
      → Leaves (λ t. TakenOver k c x xs t) (and_then (schedule im (ended c k)) finish)
  ended-TakenOver x xs ne q = Leaves-then _ (schedule-Runs im (ended c k) x xs q) λ t r. record {
    ended = (let e = r.others c (λ e. ne (sym e)) in rw e (rw (==_refl c) refl));
    another = ne;
    current = r.current;
    running = r.running;
    queue = r.queue;
    pc = (let e = r.pc in rw (ne→==_false x c ne) at e);
    others = λ p nc nx. r.others p nx ∙ rw (ne→==_false p c nc) refl;
  }

  ended-Finished :
      ((p : ℕ) → p < nproc → Finished ((ended c k).procs p).status)
      ↔ ((p : ℕ) → p < nproc → p ≢ c → Finished (k.procs p).status)
  ended-Finished = (
    λ f p h ne. (let e = f p h in rw (ne→==_false p c ne) at e),
    λ f p h. elim (Bool-cases (p == c)) [
      | inl here ↦ rw here (inr refl)
      | inr other ↦ (let ne : p ≢ c = ground arith in rw other (f p h ne))
    ],
  )

-- The system call exit, when the processes are in order and process `c` runs: with nobody in the
-- ready queue, the machine is switched off exactly when every other process of the pool is FREE
-- or ZOMBIE; with processes in the queue, `c` becomes a ZOMBIE and the first of them, another
-- process, runs from its saved program counter, with the others waiting as before.
pub sys_user_exit-AfterExit :
    (im : Image) (k : Kernel) (c : ℕ) (o : Orderly k)
    → k.current ≡ some c
    → AfterExit k c o.queued.queue (sys_user_exit im k)
unfolding sys_user_exit free_process deref
sys_user_exit-AfterExit im k c o runs =
    let was : (k.procs c).status ≡ ProcStatus.running = o.runs c runs in
    subst (AfterExit k c o.queued.queue) (sym (deref-then k.current runs _))
      (outcome o.queued.queue was (ended-IsQueue k c o was) o.queued.is_queue.all_ready)
  where
    outcome :
        (xs : List ℕ)
        → (k.procs c).status ≡ ProcStatus.running
        → IsQueue (ended c k) xs
        → ((p : ℕ) → has p xs ≡ true → (k.procs p).status ≡ ProcStatus.ready)
        → AfterExit k c xs (and_then (schedule im (ended c k)) finish)
    outcome [] was q ready =
        let done = ended-Finished im k c was in
        let off = (schedule-shut_down im (ended c k) q).0 in
        (
          λ e. done.0 (off.0 (finish-halt (schedule im (ended c k)) e)),
          λ f. rw (off.1 (done.1 f)) refl,
        )
    outcome (x ∷ xs) was q ready =
        ended-TakenOver im k c was x xs (another_lem im k c was x (ready x (rw (==_refl x) refl))) q
