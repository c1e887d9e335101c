-- ===== src/User.antt =====
-- The library of the user programs: user/user_lib.c.
pub mod Library
pub mod Calls
mod Tests
