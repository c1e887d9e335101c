-- ===== src/Sync.antt =====
-- kernel/sync_utils.c: atomic operations and the spinlock, between several harts.
pub mod Atomic
pub mod Exclusion
pub mod Progress
mod Tests
