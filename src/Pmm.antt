-- ===== src/Pmm.antt =====
-- kernel/pmm.c
pub mod Links
pub mod Rings
pub mod State
pub mod Buddy
pub mod Invariant
pub mod Blocks
pub mod Split
pub mod Alloc
pub mod Mates
pub mod Merge
pub mod Free
pub mod RoundTrip
pub mod Init
pub mod Coverage
pub mod Start
pub mod Cache
pub mod Reuse
pub mod Stock
pub mod Supply
pub mod Budget
mod Tests
