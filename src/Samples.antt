-- ===== src/Samples.antt =====
-- A small machine for the tests: no memory to allocate, three processes, one page table.
use pke.Base.{arith, refl, ◌≡◌, ℕ, ◌+◌, ◌*◌, ◌/◌, ◌==◌, if◌then◌else◌, replicate, some, none}
use pke.Pmm.State.{Page, Pmm, dram_base}
use pke.Kernel.{Process, ProcStatus, Kernel}
use pke.Sched.Next.{Image}
use pke.Process.Pool.{zero_process}
use pke.Vmm.Pte.{px, has_flag, pte_to_pa}
use pke.Vmm.Lookup.{Reaches}

abbrev pub blank_page : Page
blank_page = record {
  is_free = 0;
  is_head = 0;
  order = 0;
  alloc = 3;
  cpu_id = 0;
  ref = 0;
  color = 0;
}

abbrev pub idle_pmm : Pmm
idle_pmm = record {
  area = record {
    pages = λ _. blank_page;
    links = record { prev = λ n. n; next = λ n. n };
    nr_pages = 1024;
  };
  lock = 0;
  pcpu_caches = λ i. record { objs = replicate 32 9; count = 32 };
  tp = 0;
  sie = 0;
  g_mem_size = 0x40_0000;
  free_mem_start_addr = dram_base;
  free_mem_end_addr = dram_base + 0x40_0000;
  buddy_start = dram_base;
  buddy_end = dram_base + 0x40_0000;
}

abbrev pub image : Image
image = record {
  smode_trap_vector = 0x8000_1000;
  smode_trap_handler = 0x8000_2000;
  trap_sec_start = 0x8000_1000;
  etext = 0x8000_5000;
  procs_addr = 0x8000_8000;
  process_size = 400;
}

-- The tables that lead to the page at 0x400000.
abbrev pub page_dir : ℕ
page_dir = 0x8010_0000

abbrev pub medium_dir : ℕ
medium_dir = 0x8010_1000

abbrev pub leaf_table : ℕ
leaf_table = 0x8010_2000

abbrev pub tables : ℕ → ℕ
tables a =
    if a == page_dir
    then medium_dir / 4096 * 1024 + 1
    else if a == medium_dir + 16
    then leaf_table / 4096 * 1024 + 1
    else 0

abbrev pub waiting : ℕ → ProcStatus → Process
waiting i st = record zero_process {
  pid = i;
  status = st;
  trapframe = 0x8020_0000 + 4096 * i;
  kstack = 0x8030_0000;
}

-- The processes 1 and 2 wait in this order, the others are unused.
abbrev pub pool : ℕ → Process
pool i =
    if i == 1
    then record (waiting 1 ProcStatus.ready) { queue_next = some 2 }
    else if i == 2
    then waiting 2 ProcStatus.ready
    else waiting i ProcStatus.free

abbrev pub machine : Kernel
machine = record {
  pmm = idle_pmm;
  mem = tables;
  procs = pool;
  current = none;
  ready_queue_head = some 1;
  g_kernel_pagetable = 0;
  stvec = 0;
  sstatus = 0;
  sepc = 0;
  satp = 0;
  scause = 0;
  stval = 0;
}

-- Nobody waits, and all slots are unused.
abbrev pub unused : Kernel
unused = record machine { procs = λ i. waiting i ProcStatus.free; ready_queue_head = none }

-- The tables of a machine that has the two entries above the leaf entry.
unfoldable pub reaches :
    (k : Kernel)
    → k.mem page_dir ≡ tables page_dir
    → k.mem (medium_dir + 16) ≡ tables (medium_dir + 16)
    → Reaches k page_dir 0x40_0000 leaf_table
unfolding px has_flag pte_to_pa
reaches k top medium = record {
  leaves = leaf_table;
  walks = record {
    medium = medium_dir;
    top_valid = rw top refl;
    top = rw top refl;
    medium_valid = rw medium refl;
    low = rw medium refl;
  };
  here = refl;
  not_null = λ e. absurd (omega (arith, e));
  not_top = λ e. absurd (omega (arith, e));
  not_medium = λ e. absurd (omega (arith, e));
  positive = omega arith;
  below = omega arith;
}
