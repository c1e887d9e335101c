-- ===== src/System/Tests.antt =====
-- Runs of the kernel as a whole.
use pke.Boot.Elf.{
  int_to_uint64, ElfFile, Host, elf_alloc_mb, elf_init, find_region, segment_of, record_region,
  load_segment, load_header, elf_load, parse_args, load_file, load_checked,
  load_bincode_from_host_elf,
}
use pke.System.Exiting.{AfterExit, sys_user_exit-AfterExit}
use pke.Base.{
  subst, zero, suc, ◌+◌, List, true, false, Run, Bool, halt, none, ℕ, [], ◌∷◌, ◌≡◌, ◌==◌,
  if◌then◌else◌, refl, arith, Cmd, ok, to_user, some, fine,
}
use pke.System.Loading.{ReadsStill}
use pke.Pmm.Init.{round_down}
use pke.Pmm.Cache.{load_cache, store_cache, load_obj, alloc_page}
use pke.Kernel.{Kernel, ProcStatus, store, load, deref, zero_words, on_pmm, on_pmm_result}
use pke.Vmm.Pte.{has_flag, pa_to_pte, pte_to_pa, px, prot_to_type}
use pke.Vmm.Walk.{cas_zero, hang_table, new_table, next_table, walk_down, leaf_of, page_walk}
use pke.Vmm.Maps.{map_page, map_loop, map_pages, user_vm_map}
use pke.Process.Pool.{
  init_proc_pool, is_free, find_free, write_region, init_pages, init_regions, init_process,
  alloc_process, region_va, free_process,
}
use pke.Boot.Start.{start_user, load_user_program}
use pke.Sched.Queue.{insert_to_ready_queue, insert_first}
use pke.Sched.Next.{schedule, run_head, is_ready, switch_to}
use pke.Samples.{image, machine, unused, idle_pmm, waiting}
use pke.Pmm.State.{pfn_to_addr}
use pke.System.Start.{start_user-Reachable}
use pke.Trap.Syscall.{do_syscall, sys_user_exit}
use pke.Trap.Handler.{cause_user_ecall, dispatch, handle_syscall, smode_trap_handler}
use pke.System.Still.{Still-refl}
use pke.System.Orderly.{Forward, Orderly}
use pke.System.Reachable.{here, trap, Reachable-Orderly}

-- Process 3 runs and calls SYS_user_exit; 1 and 2 wait.
abbrev exiting : Kernel
exiting = record machine {
  current = some 3;
  procs = λ i. if i == 3 then waiting 3 ProcStatus.running else machine.procs i;
  scause = cause_user_ecall;
  sepc = 0x1_0000;
  mem = λ a. if a == 0x8020_3048 then 65 else 0;
}

exiting-Orderly : Orderly exiting
exiting-Orderly = record {
  queued = record {
    queue = 1 ∷ 2 ∷ [];
    is_queue = record {
      linked = (refl, (refl, refl));
      distinct = (refl, (refl, tt));
      within = omega arith;
      all_ready = λ p h. ground arith;
    };
    pool = λ p h. ground arith;
  };
  runs = λ c e. ground arith;
}

abbrev no_count : ℕ → Cmd Kernel (Unit {0})
no_count pa k = ok tt k

next_runs : (v : Kernel) × (smode_trap_handler image no_count (λ _ _. 0) exiting ≡ to_user v)
unfolding smode_trap_handler store dispatch handle_syscall load do_syscall sys_user_exit deref
    free_process schedule run_head is_ready switch_to
next_runs = (_, refl)

Reachable-Orderly_example : Orderly (next_runs.0) × Forward exiting (next_runs.0)
Reachable-Orderly_example =
    Reachable-Orderly image no_count (λ _ _. 0) (λ k₀ pa k h. fine h) exiting-Orderly
      (trap here (Still-refl exiting) (next_runs.1))

-- A program of one segment, for a machine with 32 pages in its cache.
abbrev count_up : ℕ → ℕ → List ℕ
count_up zero from = []
count_up (suc n) from = from ∷ count_up n (from + 1)

abbrev stocked : Kernel
stocked = record unused {
  mem = λ a. 0;
  pmm = record idle_pmm { pcpu_caches = λ i. record { objs = count_up 32 100; count = 32 } };
}

abbrev program : ElfFile
program = record {
  ehdr = some (record { magic = 0x464c_457f; entry = 0x1_0000; phoff = 64; phnum = 1 });
  prog_header = λ off.
      if off == 64
      then some (record {
        type = 1;
        flags = 5;
        off = 4096;
        vaddr = 0x1_0000;
        filesz = 1000;
        memsz = 1000;
      })
      else none;
  pread = λ dest nb off k. ok true k;
}

abbrev one_program : Host
one_program = record { argc = some 2; file = some program }

-- Where a run has left for user mode.
abbrev left_in : {A : Type 0} → Kernel → Run Kernel A → Kernel
left_in k (ok a s) = k
left_in k (to_user s) = s
left_in k (halt h) = k

abbrev is_away : {A : Type 0} → Run Kernel A → Bool
is_away (ok a s) = false
is_away (to_user s) = true
is_away (halt h) = false

away_lem :
    {A : Type 0} (k : Kernel) (r : Run Kernel A) → is_away r ≡ true → r ≡ to_user (left_in k r)
away_lem k (ok a s) e = cc
away_lem k (to_user s) e = refl
away_lem k (halt h) e = cc

started : is_away (start_user image one_program stocked) ≡ true
unfolding start_user init_proc_pool load_user_program alloc_process find_free is_free init_process
    init_pages init_regions on_pmm on_pmm_result alloc_page load_cache store_cache load_obj
    pfn_to_addr zero_words store load user_vm_map map_pages map_loop map_page page_walk walk_down
    next_table new_table hang_table cas_zero leaf_of has_flag pa_to_pte pte_to_pa px prot_to_type
    write_region region_va load_bincode_from_host_elf parse_args load_checked elf_init load_file
    elf_load int_to_uint64 load_header load_segment elf_alloc_mb record_region find_region
    segment_of round_down insert_to_ready_queue insert_first schedule run_head is_ready switch_to
started = refl

abbrev in_user : Kernel
in_user = left_in stocked (start_user image one_program stocked)

reads_nothing : ReadsStill program
reads_nothing k₀ dest nb off k h = fine h

start_user-Reachable_example : Orderly in_user
start_user-Reachable_example =
    start_user-Reachable image one_program
      (λ file e. subst ReadsStill (let same : program ≡ file = cc in same) reads_nothing) no_count
      (λ _ _. 0) (λ k₀ pa k h. fine h) stocked in_user in_user refl refl
      (away_lem stocked (start_user image one_program stocked) started) here

-- Process 3 ends, and process 1 is next.
sys_user_exit-AfterExit_example : AfterExit exiting 3 (1 ∷ 2 ∷ []) (sys_user_exit image exiting)
unfolding exiting-Orderly
sys_user_exit-AfterExit_example = sys_user_exit-AfterExit image exiting 3 exiting-Orderly refl
