-- ===== src/Sched.antt =====
-- kernel/sched.c: the ready queue and the choice of the next process.
pub mod Queue
pub mod Enqueue
pub mod Next
mod Tests
