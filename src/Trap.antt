-- ===== src/Trap.antt =====
-- kernel/syscall.c and kernel/strap.c: system calls and traps.
pub mod Syscall
pub mod Handler
pub mod Cow
pub mod Fault
pub mod Return
mod Tests
