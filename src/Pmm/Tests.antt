-- ===== src/Pmm/Tests.antt =====
-- Runs of the allocator on small memories.
use pke.Base.{
  ◌≢◌, get_elem?, some, true, ℕ, [], ◌∷◌, ◌≡◌, ◌↔◌, refl, arith, inl, replicate, halt, spinning,
  panicked, faulted, Returns, and_then, ◌>>=◌, ◌<◌, ◌+◌, ◌*◌, Distinct, length, has, ◌≤◌, ◌%◌,
}
use pke.Pmm.Links.{head, node, list_add}
use pke.Pmm.State.{Page, Area, Pmm, write_page, page_size, dram_base}
use pke.Pmm.Invariant.{Lists, put_list, IsBuddy}
use pke.Pmm.Blocks.{Covers}
use pke.Pmm.Buddy.{buddy_alloc, buddy_free, buddy_merge_inner}
use pke.Pmm.Alloc.{Taken, buddy_alloc-Taken, buddy_alloc-panics}
use pke.Pmm.Free.{Held, Freed, buddy_merge_inner-Freed}
use pke.Pmm.RoundTrip.{buddy_free-Freed, buddy_alloc-free}
use pke.Pmm.Coverage.{Filled, Filled-added, Filling}
use pke.Pmm.Stock.{Stocked}
use pke.Pmm.Supply.{descriptors_end, pmm_init-Stocked}
use pke.Pmm.Budget.{alloc_pages, pmm_init-alloc_pages}
use pke.Pmm.Init.{pmm_init, empty_heads, buddy_system_init}
use pke.Pmm.Start.{empty_lists, heads-Filled, buddy_system_init-Filled}
use pke.Pmm.Cache.{alloc_page, pfree}
use pke.Pmm.Reuse.{alloc_page-spins, pfree-alloc_page, pfree-faults}

abbrev blank : Page
blank = record { is_free = 0; is_head = 0; order = 0; alloc = 3; cpu_id = 0; ref = 0; color = 0 }

-- 1024 pages, none of them free.
abbrev bare : Area
bare = record {
  pages = λ _. blank;
  links = record { prev = λ n. n; next = λ n. n };
  nr_pages = 1024;
}

abbrev heads : Area
heads = record bare { links = empty_heads bare.links }

-- The pages 8 to 15 are free, as a block of order 3.
abbrev one_block : Area
one_block =
    record (write_page 8 (record blank { alloc = 0; is_head = 1; is_free = 1; order = 3 }) heads) {
      links = list_add heads.links (head 3) (node 8) (node 8);
    }

abbrev one_list : Lists
one_list = put_list empty_lists 3 (8 ∷ [])

heads_filled : Filled heads empty_lists 8 8
heads_filled = heads-Filled bare 8 λ p. refl

one_filled : Filled one_block one_list 8 16
one_filled = Filled-added 8 8 3 heads_filled (omega arith) (omega arith) (omega arith, omega arith)

abbrev with_area : Area → Pmm
with_area a = record {
  area = a;
  lock = 0;
  pcpu_caches = λ i. record { objs = replicate 32 9; count = 0 };
  tp = 0;
  sie = 0;
  g_mem_size = 0x40_0000;
  free_mem_start_addr = dram_base;
  free_mem_end_addr = dram_base + 0x40_0000;
  buddy_start = dram_base;
  buddy_end = dram_base + 0x40_0000;
}

abbrev with_count : ℕ → Area → Pmm
with_count n a = record (with_area a) {
  pcpu_caches = λ i. record { objs = replicate 32 9; count = n };
}

buddy_alloc-Taken_example :
    Returns (Taken (with_area one_block) one_list 1) (buddy_alloc 1 (with_area one_block))
buddy_alloc-Taken_example =
    buddy_alloc-Taken (with_area one_block) (one_filled.valid) 1 (omega arith) refl (omega arith) 3
      (omega arith) (omega arith) (λ e. cc)

buddy_alloc-panics_example : buddy_alloc 4 (with_area heads) ≡ halt panicked
buddy_alloc-panics_example =
    buddy_alloc-panics (with_area heads) (heads_filled.valid) 4 (omega arith) refl (omega arith)
      λ j lo hi. refl

buddy_alloc-free_example :
    Returns
      (λ _ t.
        (fl' : Lists) × IsBuddy t.area fl' []
        × ((q : ℕ) → Covers fl' q ↔ Covers one_list q)
        × (t.lock ≡ 0))
      ((buddy_alloc 0 >>= buddy_free) (with_area one_block))
buddy_alloc-free_example =
    buddy_alloc-free (with_area one_block) 0 3 (one_filled.valid) (omega arith) refl (omega arith)
      refl (omega arith) (omega arith) (omega arith) λ e. cc

-- The first page of memory is in use, the pages 8 to 15 are free.
first-Held : Held one_block one_list 0 0
first-Held = record {
  valid = one_filled.valid;
  small = omega arith;
  whole = refl;
  limit = omega arith;
  fits = (refl, omega arith);
  apart = λ j q hj h. inl (ground arith);
  order = refl;
}

buddy_merge_inner-Freed_example :
    Returns (λ _ t. Freed one_block one_list 0 0 t) (buddy_merge_inner 0 one_block)
buddy_merge_inner-Freed_example = buddy_merge_inner-Freed first-Held

buddy_free-Freed_example :
    Returns
      (λ _ t.
        Freed one_block one_list 0 0 t.area
        × (t ≡ record (with_area one_block) { area = t.area; lock = 0 }))
      (buddy_free (0 * page_size + dram_base) (with_area one_block))
buddy_free-Freed_example = buddy_free-Freed (with_area one_block) 0 (omega arith) refl first-Held

buddy_system_init-Filled_example :
    Returns
      (λ _ t. Filling bare 2 512 t.area × (t ≡ record (with_area bare) { area = t.area; lock = 0 }))
      (buddy_system_init (dram_base + 5000) (dram_base + 0x20_0000) (with_area bare))
buddy_system_init-Filled_example =
    buddy_system_init-Filled (with_area bare) (dram_base + 5000) (dram_base + 0x20_0000) (λ p. refl)
      (omega arith) (omega arith) (omega arith) (omega arith)

alloc_page-spins_example : alloc_page (with_area one_block) ≡ halt spinning
alloc_page-spins_example = alloc_page-spins (with_area one_block) refl refl

pfree-alloc_page_example :
    Returns
      (λ a t.
        (a ≡ 9 * page_size + dram_base)
        × (a ≢ 40 * page_size + dram_base)
        × ((t.pcpu_caches 0).count ≡ 5)
        × (get_elem? (t.pcpu_caches 0).objs 6 ≡ some 40))
      (and_then (pfree (40 * page_size + dram_base) (with_count 5 one_block)) λ _. alloc_page)
pfree-alloc_page_example =
    pfree-alloc_page (with_count 5 one_block) 5 40 9 refl refl refl (omega arith) refl (omega arith)
      (omega arith) refl refl (omega arith) (λ e. absurd (omega (arith, e)))

pfree-faults_example : pfree (40 * page_size + dram_base) (with_count 31 one_block) ≡ halt faulted
pfree-faults_example =
    pfree-faults (with_count 31 one_block) 40 refl refl refl (omega arith) (omega arith) refl

abbrev kernel_end : ℕ
kernel_end = dram_base + 0x2_0000

pmm_init-Stocked_example :
    Returns
      (λ _ t.
        (from : ℕ) × (descriptors_end kernel_end (with_area bare) ≤ from * page_size + dram_base)
        × (from * page_size + dram_base
            < descriptors_end kernel_end (with_area bare) + 8 + page_size)
        × Stocked from 1024 t
        × (t.tp ≡ 0)
        × ((t.pcpu_caches 0).count ≡ 32))
      (pmm_init kernel_end (with_area bare))
pmm_init-Stocked_example =
    pmm_init-Stocked (with_area bare) kernel_end (omega arith) (omega arith) refl

pmm_init-alloc_pages_example :
    Returns
      (λ addrs t.
        (length addrs ≡ 32)
        × Distinct addrs
        × ((a : ℕ)
            → has a addrs ≡ true
            → (a % page_size ≡ 0)
              × (descriptors_end kernel_end (with_area bare) ≤ a)
              × (a + page_size ≤ 1024 * page_size + dram_base))
        × (alloc_page t ≡ halt spinning))
      (and_then (pmm_init kernel_end (with_area bare)) λ _. alloc_pages 32)
pmm_init-alloc_pages_example =
    pmm_init-alloc_pages (with_area bare) kernel_end refl (omega arith) (omega arith) refl
