-- ===== src/Heap/Tests.antt =====
-- Runs on the user heap.
use pke.Base.{
  ℕ, ◌≡◌, ◌≢◌, ◌<◌, ◌+◌, ◌*◌, ◌%◌, refl, ap, ◌∙◌, arith, some, ok, true, false, Returns, replicate,
}
use pke.Pmm.State.{Pmm, page_size, dram_base, pfn_to_addr}
use pke.Pmm.Cache.{alloc_page, pfree, write_cache}
use pke.Pmm.Reuse.{alloc_page-pops, returned, pfree-returned}
use pke.Kernel.{Kernel, write_mem}
use pke.Vmm.Pte.{px, pte_v, has_flag, pte_to_pa}
use pke.Vmm.Maps.{lookup_pa}
use pke.Vmm.Lookup.{Off}
use pke.Trap.Syscall.{sys_user_allocate_page, sys_user_free_page}
use pke.Heap.Pages.{InUse, IsHeap, Adds}
use pke.Heap.Calls.{
  Next, at_top, Allocated, sys_user_allocate_page-Allocated, sys_user_free_page-Freed,
}
use pke.Samples.{machine, reaches, idle_pmm, page_dir, leaf_table}

-- Process 5 runs; its heap ends at `top` and the entry of the page at 0x400000 is `w`.
abbrev running : ℕ → ℕ → Kernel
running top w = record (write_mem leaf_table w machine) {
  pmm = record idle_pmm { pcpu_caches = λ i. record { objs = replicate 32 9; count = 3 } };
  current = some 5;
  procs = λ i. record (machine.procs i) {
    pagetable = page_dir;
    mapped_info = 0x8040_0000;
    user_heap = record ((machine.procs i).user_heap) {
      heap_top = top;
      heap_bottom = 0x3f_f000;
      free_pages_count = 0;
    };
  };
}

running-IsHeap :
    (top w : ℕ) → 0x3f_f000 < top → top % page_size ≡ 0 → IsHeap ((running top w).procs 5).user_heap
running-IsHeap top w lt aligned = record {
  size = refl;
  count = omega arith;
  order = omega (arith, lt);
  top_aligned = aligned;
  listed = λ i va l e. absurd (omega (arith, l));
  once = λ i j va l l' e e'. absurd (omega (arith, l));
}

drawn :
    alloc_page (running 0x40_0000 0).pmm
    ≡ ok
        (pfn_to_addr 9)
        (write_cache 0 (record { objs = replicate 32 9; count = 2 }) (running 0x40_0000 0).pmm)
drawn = alloc_page-pops (running 0x40_0000 0).pmm 2 9 refl refl (omega arith) refl

off : Off (reaches (running 0x40_0000 0) refl refl) 0x8040_0038
unfolding px reaches
off = record {
  not_top = λ e. absurd (omega (arith, e));
  not_medium = λ e. absurd (omega (arith, e));
}

empty : has_flag 0 pte_v ≡ false
unfolding has_flag
empty = refl

abbrev two_left : Pmm
two_left = write_cache 0 (record { objs = replicate 32 9; count = 2 }) (running 0x40_0000 0).pmm

sys_user_allocate_page-Allocated_example :
    Returns
      (Allocated (running 0x40_0000 0) 5 0x40_0000 (pfn_to_addr 9) two_left)
      (sys_user_allocate_page (running 0x40_0000 0))
unfolding pfn_to_addr
sys_user_allocate_page-Allocated_example =
    sys_user_allocate_page-Allocated (running 0x40_0000 0) 5 0x40_0000 leaf_table two_left refl
      (running-IsHeap 0x40_0000 0 (omega arith) refl) (pfn_to_addr 9) (at_top refl refl) drawn refl
      (omega arith) (reaches (running 0x40_0000 0) refl refl) off (λ e. absurd (omega (arith, e)))
      empty

-- The heap has grown by the page at 0x400000, which is mapped to page 512 of memory.
abbrev used : Kernel
used = running 0x40_1000 0x2008_00c7

in_use : InUse ((used.procs 5).user_heap) 0x40_0000
in_use = record {
  above = omega arith;
  below = omega arith;
  aligned = refl;
  unlisted = λ i l e. absurd (omega (arith, l));
}

used_valid : has_flag 0x2008_00c7 pte_v ≡ true
unfolding has_flag
used_valid = refl

used_pa : pte_to_pa 0x2008_00c7 ≡ 512 * page_size + dram_base
unfolding pte_to_pa
used_pa = refl

used_freed :
    pfree (pte_to_pa 0x2008_00c7) used.pmm ≡ ok tt (record (returned used.pmm 3 512) { sie = 0 })
used_freed =
    ap (λ (a : ℕ). pfree a used.pmm) used_pa
    ∙ pfree-returned used.pmm 3 512 refl refl refl (omega arith) refl (omega arith) (omega arith)
        refl

sys_user_free_page-Freed_example :
    Returns
      (λ _ t.
        Adds (t.procs 5).user_heap 0x40_0000 (used.procs 5).user_heap
        × IsHeap (t.procs 5).user_heap
        × (lookup_pa page_dir 0x40_0000 t ≡ ok 0 t)
        × Next (t.procs 5).user_heap 0x40_0000
        × ((p : ℕ) → p ≢ 5 → t.procs p ≡ used.procs p)
        × (t.pmm ≡ record (returned used.pmm 3 512) { sie = 0 })
        × ((a : ℕ) → a ≢ leaf_table → t.mem a ≡ used.mem a))
      (sys_user_free_page 0x40_0000 used)
sys_user_free_page-Freed_example =
    sys_user_free_page-Freed used 5 0x40_0000 leaf_table
      (record (returned used.pmm 3 512) { sie = 0 }) refl
      (running-IsHeap 0x40_1000 0x2008_00c7 (omega arith) refl) in_use (omega arith)
      (reaches used refl refl) used_valid used_freed
