-- ===== src/Vmm/Tests.antt =====
-- Page tables at work.
use pke.Base.{
  List, [], ◌∷◌, has, ◌<◌, ◌^◌, ◌/◌, replicate, ap, ◌∙◌, ◌*◌, ℕ, ◌≡◌, ◌≢◌, ◌+◌, refl, arith, true,
  false, ok, Returns,
}
use pke.Vmm.Walk.{entry}
use pke.Vmm.Supply.{Cached}
use pke.Vmm.Fresh.{Unmapped, map_pages-fresh}
use pke.Kernel.{Kernel, write_mem}
use pke.Pmm.State.{dram_base, page_size}
use pke.Vmm.Pte.{pte_to_pa, pa_to_pte, has_flag, pte_v}
use pke.Vmm.Maps.{map_pages, lookup_pa}
use pke.Vmm.Lookup.{Reaches, Mappable, leaf_word, map_pages-lookup_pa}
use pke.Pmm.Cache.{pfree}
use pke.Pmm.Reuse.{returned, pfree-returned}
use pke.Samples.{reaches, idle_pmm, page_dir, leaf_table, tables, machine}

mappable : Mappable 0x8020_0000 0xc7
unfolding has_flag
mappable = record { aligned = refl; small = omega arith; flags = omega arith; readable = refl }

unmapped : has_flag (tables leaf_table) pte_v ≡ false
unfolding has_flag
unmapped = refl

map_pages-lookup_pa_example :
    Returns
      (λ fine t.
        (fine ≡ true)
        × Reaches t page_dir 0x40_0000 leaf_table
        × (lookup_pa page_dir 0x40_0000 t ≡ ok 0x8020_0000 t)
        × ((a : ℕ) → a ≢ leaf_table → t.mem a ≡ tables a))
      (map_pages page_dir 0x40_0000 page_size 0x8020_0000 0xc7 machine)
map_pages-lookup_pa_example =
    map_pages-lookup_pa machine page_dir 0x40_0000 leaf_table 0x8020_0000 0xc7
      (reaches machine refl refl) refl unmapped mappable

-- The leaf entry of the page holds the physical page 0x80200000.
abbrev mapped : Kernel
mapped = write_mem leaf_table (leaf_word 0x8020_0000 0xc7) machine

-- The page is on loan from the cache of the hart, which has room for it.
abbrev lent : Kernel
lent = record mapped {
  pmm = record idle_pmm { pcpu_caches = λ i. record { objs = replicate 32 9; count = 3 } };
}

lent-Reaches : Reaches lent page_dir 0x40_0000 leaf_table
lent-Reaches = reaches lent refl refl

lent_valid : has_flag (lent.mem leaf_table) pte_v ≡ true
unfolding has_flag pa_to_pte
lent_valid = refl

lent_pa : pte_to_pa (lent.mem leaf_table) ≡ 512 * page_size + dram_base
unfolding pte_to_pa pa_to_pte
lent_pa = refl

lent_freed :
    pfree (pte_to_pa (lent.mem leaf_table)) lent.pmm
    ≡ ok tt (record (returned lent.pmm 3 512) { sie = 0 })
lent_freed =
    ap (λ (a : ℕ). pfree a lent.pmm) lent_pa
    ∙ pfree-returned lent.pmm 3 512 refl refl refl (omega arith) refl (omega arith) (omega arith)
        refl

-- Three pages in the cache, and a page directory with no entry.
abbrev three_pages : List ℕ
three_pages = 100 ∷ 101 ∷ 102 ∷ []

abbrev blank : Kernel
blank = record machine {
  mem = λ a. 0;
  pmm = record idle_pmm { pcpu_caches = λ i. record { objs = three_pages; count = 3 } };
}

three_small : (q : ℕ) → has q three_pages ≡ true → q < 2 ^ 43
three_small q h = ground arith

blank_unmapped : Unmapped three_pages three_small page_dir 0x40_0000 102 101 1 blank
blank_unmapped = record {
  empty = refl;
  cached = record { hart = refl; count = refl; objs = refl };
  fits = omega arith;
  first = refl;
  second = refl;
  differ = λ e. absurd (omega (arith, e));
  dir_page = (refl, omega arith);
  dir_p = λ e. absurd (omega (arith, e));
  dir_q = λ e. absurd (omega (arith, e));
  positive = omega arith;
  below = omega arith;
}

map_pages-fresh_example :
    Returns
      (λ fine t.
        (fine ≡ true)
        × (lookup_pa page_dir 0x40_0000 t ≡ ok 0x8020_0000 t)
        × Cached three_pages 1 t
        × ((a : ℕ)
            → a / page_size ≢ (102 * page_size + dram_base) / page_size
            → a / page_size ≢ (101 * page_size + dram_base) / page_size
            → a ≢ entry page_dir 2 0x40_0000
            → t.mem a ≡ 0))
      (map_pages page_dir 0x40_0000 page_size 0x8020_0000 0xc7 blank)
map_pages-fresh_example =
    map_pages-fresh three_pages three_small page_dir 0x40_0000 102 101 1 blank blank_unmapped
      0x8020_0000 0xc7 refl mappable
