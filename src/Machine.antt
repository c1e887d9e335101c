-- ===== src/Machine.antt =====
-- Machine mode: the start in kernel/machine/minit.c and the traps in kernel/machine/mtrap.c.
pub mod Csr
pub mod Start
pub mod Trap
mod Tests
