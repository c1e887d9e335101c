-- ===== src/Vmm.antt =====
-- kernel/vmm.c and the page table macros of kernel/riscv.h.
pub mod Pte
pub mod Walk
pub mod Maps
pub mod Lookup
pub mod Supply
pub mod Tables
pub mod Fresh
pub mod Loop
pub mod Unmap
pub mod KernelMap
pub mod Exhausted
mod Tests
