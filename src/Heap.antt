-- ===== src/Heap.antt =====
-- The user heap of a process: sys_user_allocate_page and sys_user_free_page of kernel/syscall.c.
pub mod Manager
pub mod Pages
pub mod Calls
mod Tests
