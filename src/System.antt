-- ===== src/System.antt =====
-- The kernel as a whole: what every trap keeps.
pub mod Still
pub mod Calls
pub mod Orderly
pub mod Forking
pub mod Traps
pub mod Reachable
pub mod Loading
pub mod Start
pub mod Exiting
mod Tests
