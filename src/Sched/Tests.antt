-- ===== src/Sched/Tests.antt =====
-- Runs of the scheduler.
use pke.Base.{ℕ, [], ◌∷◌, ◌≡◌, ◌↔◌, ◌<◌, refl, arith, halt, shut_down, panicked, Returns, Leaves}
use pke.Kernel.{nproc}
use pke.Sched.Queue.{IsQueue, enqueue, insert_to_ready_queue, insert_to_ready_queue-IsQueue}
use pke.Sched.Next.{Runs, schedule, Finished, schedule-Runs, schedule-shut_down}
use pke.Samples.{image, machine, unused}

two_wait : IsQueue machine (1 ∷ 2 ∷ [])
two_wait = record {
  linked = (refl, (refl, refl));
  distinct = (refl, (refl, tt));
  within = omega arith;
  all_ready = λ p h. ground arith;
}

insert_to_ready_queue-IsQueue_example :
    Returns (λ _ t. IsQueue t (enqueue 5 (1 ∷ 2 ∷ []))) (insert_to_ready_queue 5 machine)
insert_to_ready_queue-IsQueue_example =
    insert_to_ready_queue-IsQueue machine (1 ∷ 2 ∷ []) 5 two_wait (omega arith)

schedule-Runs_example : Leaves (λ t. Runs image machine 1 (2 ∷ []) t) (schedule image machine)
schedule-Runs_example = schedule-Runs image machine 1 (2 ∷ []) two_wait

nobody_waits : IsQueue unused []
nobody_waits = record { linked = refl; distinct = tt; within = omega arith; all_ready = λ p h. cc }

schedule-shut_down_example :
    ((schedule image unused ≡ halt shut_down)
      ↔ ((p : ℕ) → p < nproc → Finished (unused.procs p).status))
    × ((p : ℕ)
        → p < nproc
        → ¬ Finished (unused.procs p).status
        → schedule image unused ≡ halt panicked)
schedule-shut_down_example = schedule-shut_down image unused nobody_waits
