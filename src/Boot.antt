-- ===== src/Boot.antt =====
-- kernel/elf.c and kernel/kernel.c: loading the first program and starting the kernel.
pub mod Elf
pub mod Start
pub mod Stuck
pub mod Stays
pub mod LoaderStays
pub mod Refused
mod Tests
