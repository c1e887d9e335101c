-- ===== src/Pmm/Supply.antt =====
-- pmm_init as a whole.
use pke.Base.{
  ℕ, ◌+◌, ◌-◌, ◌*◌, ◌^◌, ◌≤◌, ◌<◌, ◌≡◌, refl, ap, ◌∙◌, inl, inr, false, [], length, arith, Returns,
  Returns-bind, Returns-mono, le→ltb_false, ltb, ◌/◌, ◌%◌, min,
}
use native.Mathlib.Nat.{min-le_left}
use pke.Pmm.State.{Area, Pmm, page_size, dram_base, pcpu_cache_size}
use pke.Pmm.Alloc.{IsSmall}
use pke.Base.Bits.{and_high}
use pke.Pmm.Coverage.{Filling}
use pke.Pmm.Start.{round_up-page, round_down-page, buddy_system_init-Filled}
use pke.Pmm.Init.{round_up, round_down, pmm_init, pke_max_allowable_ram, kernel_page}
use pke.Pmm.Stock.{Stock, Stocked, fill_caches-Stocked}

round_up-word : (a : ℕ) → a + 8 ≤ 2 ^ 64 → round_up a 8 ≡ (a + 7) / 8 * 8
unfolding round_up
round_up-word a h =
    let e : (a + 8 - 1) % 2 ^ 64 ≡ a + 7 = omega arith in rw e (and_high 3 61 (a + 7) (omega arith))

-- The number of pages that pmm_init manages, and where the descriptors end.
abbrev pub managed_pages : Pmm → ℕ
managed_pages m = min pke_max_allowable_ram m.g_mem_size / page_size

abbrev pub descriptors_end : ℕ → Pmm → ℕ
descriptors_end kernel_end m = managed_pages m * 24 + kernel_end

-- What buddy_system_init leaves behind, with no page given out yet.
filled-Stock :
    (m : Pmm) {t : Pmm} {from end : ℕ} {s : Area}
    → Filling s from end t.area
    → t ≡ record m { area = t.area; lock = 0 }
    → s.nr_pages ≡ m.area.nr_pages
    → length (m.pcpu_caches 0).objs ≡ pcpu_cache_size
    → IsSmall s
    → Stock from end [] t
filled-Stock m {t} g same pages size small =
    let caches = ap (λ (v : Pmm). (v.pcpu_caches 0).objs) same in
    record {
      lists = g.lists;
      rest = (t.pcpu_caches 0).objs;
      valid = g.filled.valid;
      small = rw g.size small;
      unlocked = ap (λ (v : Pmm). v.lock) same;
      objs = refl;
      full = ap length caches ∙ size;
      distinct = tt;
      pages = λ q. (
        λ c. elim c [ inl h ↦ cc | inr h ↦ (g.filled.free q).0 h ],
        λ r. inr ((g.filled.free q).1 r),
      );
      apart = λ q h. cc;
    }

-- pmm_init, when the kernel ends in memory and 33 pages are left behind the page descriptors, for
-- caches of 32 objects: it returns, and hart 0 has 32 distinct pages in its cache. Each page from
-- the first that starts behind the descriptors to the end of memory is either among them or in one
-- of the free lists, which are in order; no other page is in either, and none is in both.
pub pmm_init-Stocked :
    (m : Pmm) (kernel_end : ℕ)
    → dram_base ≤ kernel_end
    → descriptors_end kernel_end m + 8 + 33 * page_size ≤ managed_pages m * page_size + dram_base
    → length (m.pcpu_caches 0).objs ≡ pcpu_cache_size
    → Returns
        (λ _ t.
          (from : ℕ) × (descriptors_end kernel_end m ≤ from * page_size + dram_base)
          × (from * page_size + dram_base < descriptors_end kernel_end m + 8 + page_size)
          × Stocked from (managed_pages m) t
          × (t.tp ≡ m.tp)
          × ((t.pcpu_caches 0).count ≡ pcpu_cache_size))
        (pmm_init kernel_end m)
unfolding pmm_init
pmm_init-Stocked m kernel_end lo room size =
    let mem : ℕ = min pke_max_allowable_ram m.g_mem_size in
    let bound : mem ≤ pke_max_allowable_ram = min-le_left pke_max_allowable_ram m.g_mem_size in
    let ok_size : ltb mem ((kernel_end + 2 ^ 64 - dram_base) % 2 ^ 64) ≡ false =
      le→ltb_false _ _ (omega (arith, room, lo)) in
    let start : ℕ =
      (managed_pages m * 24 + (kernel_end + 7) / 8 * 8 + 4095) / page_size * page_size in
    let e1 : round_up kernel_end 8 ≡ (kernel_end + 7) / 8 * 8 =
      round_up-word kernel_end (omega (arith, lo, room, bound)) in
    let e2 : round_up (managed_pages m * 24 + (kernel_end + 7) / 8 * 8) page_size ≡ start =
      round_up-page _ (omega (arith, lo, room, bound)) in
    let e3 : round_down (mem + dram_base) page_size ≡ (mem + dram_base) / page_size * page_size =
      round_down-page _ (omega (arith, bound)) in
    let stop : ℕ = (mem + dram_base) / page_size * page_size in
    let t0 : Pmm = record m {
      area = record { pages = λ _. kernel_page; links = m.area.links; nr_pages = mem / page_size };
      g_mem_size = mem;
      free_mem_start_addr = round_up kernel_end page_size;
      free_mem_end_addr = mem + dram_base;
      buddy_start = start;
      buddy_end = stop;
    } in
    let from : ℕ = (start - dram_base + 4095) / page_size in
    let ends : (stop - dram_base) / page_size ≡ managed_pages m = omega arith in
    rw (ok_size, e1, e2, e3)
      (Returns-bind
        (rw ends at (
          buddy_system_init-Filled t0 start stop (λ p. refl) (omega (arith, bound))
            (omega (arith, lo)) (omega (arith, room, lo)) (omega arith)))
        λ _ t (g, same).
          Returns-mono
            (fill_caches-Stocked {from = from} {end = managed_pages m} (omega (arith, room, lo))
              (filled-Stock t0 g same refl size (omega (arith, bound))))
            λ _ u (stocked, tp, count). (
              from,
              omega (arith, lo),
              omega (arith, lo),
              stocked,
              tp ∙ ap (λ (v : Pmm). v.tp) same,
              count,
            ))
