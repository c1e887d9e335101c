-- ===== src/Lib.antt =====
-- PKE, a proxy kernel for RISC-V: memory, processes, system calls and traps of work/kernel, with the
-- string functions and the formatted printing of work/util and the library of the user programs.
--
-- The kernel hands out physical pages (kernel/pmm.c), keeps page tables in them (kernel/vmm.c), runs
-- processes over these tables (kernel/process.c, kernel/sched.c) and enters from user mode through
-- one trap handler (kernel/strap.c, kernel/syscall.c).
--
-- Files:
--   Base         shared names; Base/Outcome has what a kernel function does to a state: it returns
--                (`ok`), leaves for user mode and never gets control back (`to_user`), or stops
--                (`halt`: a panic or failed assertion, a lock that is waited for without end, an access
--                outside an array, the shutdown of the machine). Base/Bits has the bit operations.
--   Pmm          kernel/pmm.c. Links: list_node and its operations, on numbered nodes. State: page
--                descriptors, caches, the globals. Buddy: buddy_split, buddy_alloc,
--                __buddy_merge_inner, buddy_free. Init: buddy_system_init, pmm_init. Cache: alloc_page
--                and pfree. The other files prove: Rings (the lists), Invariant (what the free lists
--                mean), Blocks and Mates (blocks and their buddies), Split, Alloc, Merge, Free,
--                RoundTrip, Coverage and Start (buddy_system_init), Stock and
--                Supply (pmm_init), Budget and Reuse (the caches).
--   Kernel       the state of the rest: processes (kernel/process.h), memory words, registers.
--   Trapframe    the offsets of struct trapframe_t.
--   Sched        kernel/sched.c and switch_to of kernel/process.c: Queue, Next; Enqueue proves.
--   Vmm          kernel/vmm.c and the macros of kernel/riscv.h: Pte, Walk, Maps, KernelMap, and the
--                proofs in Lookup, Unmap and Fresh (where the tables are missing); Supply, Tables,
--                Loop and Exhausted prove how many tables the kernel's own map takes.
--   Process      kernel/process.c: Pool (init_proc_pool, alloc_process, free_process), Fork (do_fork),
--                Report (print_proc_vmspace of kernel/vmm.c), and the proofs in Slots, Shared (one
--                page of do_fork), Region (its loop over the pages) and Forked (its end).
--   Trap         kernel/syscall.c (Syscall) and kernel/strap.c (Handler); Cow, Fault and Return prove.
--   Heap         proofs about the user heap: Manager (the list of free pages), Pages (the heap as a set
--                of pages in use), Calls (the two system calls).
--   System       proofs about all traps: Still, Calls and Forking (what leaves the processes alone),
--                Orderly (the ready queue and the states of the processes), Traps, Reachable, Loading
--                and Start (the first process), Exiting (sys_user_exit).
--   Boot         kernel/elf.c (Elf) and kernel/kernel.c (Start, where start_user is
--                the end of s_start); Stuck, Stays, LoaderStays and Refused prove.
--   Strings      util/string.c (Bytes); Copies and Ends prove.
--   Format       util/snprintf.c: Printer (vsnprintf), Spec (the text of a format, on lists), and the
--                proofs in Digits, Convert, Truncation and ReadBack.
--   Machine      kernel/machine: Csr (registers), Start (minit.c), Trap (mtrap.c).
--   User         user/user_lib.c (Library), and the proofs in Calls.
--   Sync         kernel/sync_utils.c between several harts: Atomic, and the proofs in Exclusion and
--                Progress.
--   Samples      a small machine for the tests; each Tests file runs its component on it.
--
-- How the code is modelled. Numbers are natural numbers with the wrap-around written out. A page_t
-- pointer is the index of the page, a process pointer the index in procs[], and the null pointer is
-- `none`, or 0 for an address. An index past the end of an array is a fault. The machine has one hart
-- (NCPU is 1 in kernel/config.h) except in Sync: on it, a lock that is held is never released to the
-- waiter. Physical memory outside the page descriptors is a function from the addresses of 64-bit
-- words; the page tables, trapframes and tables of regions all live in it, and every address can be
-- read. memset and memcpy in the kernel files are the whole-word commands zero_words and copy_words.
-- Messages to the console are left out, except where one looks a page up or prints a null text;
-- print_proc_vmspace gives its lines as a value.
--
-- Bounds and fuel. merge_loop, split_loop and alloc_loop count the rounds that MAX_ORDER leaves.
-- init_loop has a round for each page of its range, since each block has a page at least. The loop of
-- insert_to_ready_queue has NPROC rounds, since the processes of a queue are slots of the pool.
-- map_pages and user_vm_unmap have a round more than the pages of their range. A loop that outlives its
-- fuel is `halt spinning`; strlen, strcmp, strcpy and atol return `none` then. vsnprintf has one fuel for the
-- format and for each string, `none` when it runs out or an argument is missing, and 20 rounds for the
-- digits of a long.
--
-- Parameters. get_page (work/kernel/process.c) and get_page_ref (work/kernel/strap.c) are called and
-- defined nowhere in the repository; both are arguments of the definitions that call them. Addresses
-- that the linker chooses are the fields of Image, or an argument. page_walk is declared with three
-- arguments in kernel/vmm.h and defined with four; the calls with three arguments are read as the
-- header has them, at target level 0.
--
-- A control register of machine mode keeps what is written to it. The trap of a user program is a
-- parameter of the user library: it gives a0 and may change the memory of the program.
--
-- The host interface of work/spike_interface is borrowed from riscv-pk: the command line and the file of
-- the first program are the record Host, whose fields are what frontend_syscall, spike_file_open and
-- spike_file_pread give.
--
-- Not modelled: the console, files and power-off of work/spike_interface;
-- the user programs; assembly files and linker scripts.
pub mod Base
pub mod Pmm
pub mod Kernel
pub mod Trapframe
pub mod Sched
pub mod Vmm
pub mod Process
pub mod Samples
pub mod Trap
pub mod Strings
pub mod Sync
pub mod Boot
pub mod Format
pub mod Machine
pub mod User
pub mod System
pub mod Heap
