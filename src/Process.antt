-- ===== src/Process.antt =====
-- kernel/process.c: the process pool, alloc_process, do_fork.
pub mod Pool
pub mod Fork
pub mod Slots
pub mod Shared
pub mod Forked
pub mod Report
pub mod Region
mod Sample
mod Tests
