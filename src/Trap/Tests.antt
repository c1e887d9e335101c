-- ===== src/Trap/Tests.antt =====
-- Runs of the trap handling.
use pke.Base.{
  ◌+◌, ◌*◌, ◌∙◌, ap, inr, replicate, some, ok, pure, Cmd, ℕ, ◌≡◌, ◌/◌, ◌%◌, ◌^◌, refl, arith, true,
  false, Returns, Leaves, if◌then◌else◌, ◌==◌,
}
use pke.Kernel.{write_mem, Kernel}
use pke.Vmm.Pte.{px, pte_v, pte_r, pte_cow, pte_to_pa, pte_w, has_flag}
use pke.Process.Fork.{cow_entry}
use pke.Trap.Handler.{
  handle_user_page_fault, cause_store_page_fault, unshared_entry, cause_user_ecall,
  smode_trap_handler,
}
use pke.Trap.Syscall.{do_syscall, sys_user_sem}
use pke.Trap.Return.{entered, smode_trap_handler-Leaves}
use pke.Trap.Cow.{unshared-cow_entry}
use pke.Vmm.Lookup.{Reaches}
use pke.Trap.Fault.{
  Outside, Copied, Unshared, handle_user_page_fault-Unshared, handle_user_page_fault-Copied,
}
use pke.Pmm.State.{Pmm, page_size, dram_base, pfn_to_addr}
use pke.Pmm.Cache.{alloc_page, pfree, write_cache}
use pke.Pmm.Reuse.{alloc_page-pops, returned, pfree-returned}
use pke.Vmm.Walk.{entry}
use pke.Samples.{idle_pmm, machine, image, reaches, page_dir, medium_dir, leaf_table}

writable : has_flag 0x2008_00d7 pte_w ≡ true
unfolding has_flag
writable = refl

unshared-cow_entry_example :
    (unshared_entry (cow_entry 0x2008_00d7) ≡ 0x2008_00d7)
    × (pte_to_pa (cow_entry 0x2008_00d7) ≡ pte_to_pa 0x2008_00d7)
    × (has_flag (cow_entry 0x2008_00d7) pte_w ≡ false)
    × (cow_entry 0x2008_00d7 / 2 ^ 8 % 2 ≡ 1)
unshared-cow_entry_example = unshared-cow_entry 0x2008_00d7 (omega arith) writable refl

-- Process 1 runs, and the entry of its page at 0x400000 is marked for copy on write.
abbrev faulting : Kernel
faulting = record (write_mem leaf_table 0x2008_01d3 machine) {
  procs = λ i. record (machine.procs i) { pagetable = page_dir };
  current = some 1;
}

faulting-Reaches : Reaches faulting page_dir 0x40_0000 leaf_table
faulting-Reaches = reaches faulting refl refl

faulting_valid : has_flag 0x2008_01d3 pte_v ≡ true
unfolding has_flag
faulting_valid = refl

abbrev no_count : ℕ → Cmd Kernel (Unit {0})
no_count pa = pure tt

abbrev one_reader : ℕ → Kernel → ℕ
one_reader pa k = 1

-- Process 1 calls SYS_user_sem_new.
abbrev calling : Kernel
calling = record machine {
  current = some 1;
  scause = cause_user_ecall;
  sepc = 0x1_0000;
  mem = λ a. if a == 0x8020_1048 then 74 else 0;
}

sem_call :
    do_syscall image (λ _. pure tt) 74 0 (entered image (λ _. pure tt) (λ _ _. 0) calling 1)
    ≡ ok 0 (entered image (λ _. pure tt) (λ _ _. 0) calling 1)
unfolding do_syscall sys_user_sem
sem_call = refl

smode_trap_handler-Leaves_example :
    Leaves
      (λ t.
        (t.current ≡ some 1)
        × (t.sepc ≡ 0x1_0004)
        × (t.mem 0x8020_1048 ≡ 0)
        × (t.stvec ≡ 0x8000_1000)
        × (t.mem 0x8020_10f8 ≡ 0x8030_0000))
      (smode_trap_handler image (λ _. pure tt) (λ _ _. 0) calling)
smode_trap_handler-Leaves_example =
    smode_trap_handler-Leaves image (λ _. pure tt) (λ _ _. 0) calling 1 0
      (entered image (λ _. pure tt) (λ _ _. 0) calling 1) refl refl refl sem_call refl refl refl

-- Two processes read the page, and the cache of the hart has pages.
abbrev shared : Kernel
shared = record faulting {
  pmm = record idle_pmm { pcpu_caches = λ i. record { objs = replicate 32 9; count = 3 } };
}

abbrev two_readers : ℕ → Kernel → ℕ
two_readers pa k = 2

abbrev two_left : Pmm
two_left = write_cache 0 (record { objs = replicate 32 9; count = 2 }) shared.pmm

shared_drawn : alloc_page shared.pmm ≡ ok (9 * page_size + dram_base) two_left
unfolding pfn_to_addr
shared_drawn = alloc_page-pops shared.pmm 2 9 refl refl (omega arith) refl

shared_valid : has_flag 0x2008_01d3 pte_r ≡ true
unfolding has_flag
shared_valid = refl

shared_marked : has_flag 0x2008_01d3 pte_cow ≡ true
unfolding has_flag
shared_marked = refl

shared_pa : pte_to_pa 0x2008_01d3 ≡ 512 * page_size + dram_base
unfolding pte_to_pa
shared_pa = refl

shared_freed :
    pfree (pte_to_pa 0x2008_01d3) two_left ≡ ok tt (record (returned two_left 2 512) { sie = 0 })
shared_freed =
    ap (λ (a : ℕ). pfree a two_left) shared_pa
    ∙ pfree-returned two_left 2 512 refl refl refl (omega arith) refl (omega arith) (omega arith)
        refl

-- Below or behind page 9 of memory.
top-Outside : Outside (entry page_dir 2 0x40_0000) (9 * page_size + dram_base)
unfolding px
top-Outside = inr (omega arith)

medium-Outside : Outside (entry medium_dir 1 0x40_0000) (9 * page_size + dram_base)
unfolding px
medium-Outside = inr (omega arith)

handle_user_page_fault-Copied_example :
    Returns
      (λ _ t.
        Copied shared page_dir 0x40_0000 leaf_table
          (9 * page_size + dram_base)
          (record (returned two_left 2 512) { sie = 0 })
          t)
      (handle_user_page_fault image no_count two_readers cause_store_page_fault 0x40_0000 shared)
unfolding reaches
handle_user_page_fault-Copied_example =
    handle_user_page_fault-Copied image no_count two_readers shared 1 0x40_0000 leaf_table
      (9 * page_size + dram_base) two_left (record (returned two_left 2 512) { sie = 0 }) refl
      (reaches shared refl refl) faulting_valid shared_valid shared_marked (omega arith)
      shared_drawn shared_freed (λ e. absurd (omega (arith, e))) refl (omega arith)
      (inr (omega arith)) top-Outside medium-Outside

handle_user_page_fault-Unshared_example :
    Returns
      (λ _ t. Unshared faulting page_dir 0x40_0000 leaf_table t)
      (handle_user_page_fault image no_count one_reader cause_store_page_fault 0x40_0000 faulting)
handle_user_page_fault-Unshared_example =
    handle_user_page_fault-Unshared image no_count one_reader faulting 1 0x40_0000 leaf_table refl
      faulting-Reaches (omega arith) faulting_valid shared_valid shared_marked (omega arith)
