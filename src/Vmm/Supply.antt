-- ===== src/Vmm/Supply.antt =====
-- The tables that page_walk takes from the cache of the running hart.
use pke.Base.{
  ℕ, suc, ◌+◌, ◌*◌, ◌/◌, ◌%◌, ◌^◌, ◌<◌, ◌≡◌, refl, true, false, bit_or, ◌==◌, ltb, leb, ◌&&◌,
  if◌then◌else◌, List, get_elem?, some, arith, ok, halt, spinning,
}
use pke.Base.Bits.{or_disjoint}
use pke.Pmm.State.{page_size, dram_base}
use pke.Pmm.Cache.{alloc_page, write_cache}
use pke.Pmm.Alloc.{pfn_to_addr_lem}
use pke.Pmm.Reuse.{alloc_page-pops, alloc_page-spins}
use pke.Kernel.{Kernel, load, store, zero_words, on_pmm, on_pmm_result}
use pke.Vmm.Pte.{pte_v, has_flag, pa_to_pte, pte_to_pa, pa_to_pte-round_trip}
use pke.Vmm.Walk.{entry, next_table, new_table, hang_table, cas_zero}
use pke.Vmm.Lookup.{has_flag-v}

-- The entry that leads to the table `a`.
abbrev pub table_word : ℕ → ℕ
table_word a = bit_or (pa_to_pte a) pte_v

abbrev pub IsPage : ℕ → Type 0
IsPage a = (a % page_size ≡ 0) × (a < 2 ^ 56)

pub table_word-v : (a : ℕ) → IsPage a → has_flag (table_word a) pte_v ≡ true
unfolding pa_to_pte
table_word-v a (aligned, small) =
    let q : ℕ = a / 2 ^ 12 in
    let e : a / 2 ^ 12 * 2 ^ 10 % 2 ^ 64 ≡ q * 2 ^ 10 = omega arith in
    let o : bit_or (q * 2 ^ 10) 1 ≡ q * 2 ^ 10 + 1 = or_disjoint 10 q 1 (omega arith) in
    has_flag-v (table_word a) (rw (e, o) (omega arith))

pub table_word-pa : (a : ℕ) → IsPage a → pte_to_pa (table_word a) ≡ a
table_word-pa a (aligned, small) = (pa_to_pte-round_trip a pte_v aligned small (omega arith)).0

module _ (xs : List ℕ) where
  -- Hart 0 runs, and its cache holds the pages of `xs` below the index `c`.
  pub record Cached (c : ℕ) (k : Kernel) : Type 0 where
    pub hart : k.pmm.tp ≡ 0
    pub count : (k.pmm.pcpu_caches 0).count ≡ c
    pub objs : (k.pmm.pcpu_caches 0).objs ≡ xs

  abbrev pub page : ℕ → ℕ
  page p = p * page_size + dram_base

  -- The page leaves the cache.
  abbrev pub drawn : ℕ → Kernel → Kernel
  drawn c k = record k { pmm = write_cache 0 (record (k.pmm.pcpu_caches 0) { count = c }) k.pmm }

  pub alloc_page-drawn :
      (c p : ℕ) (k : Kernel)
      → Cached (suc c) k
      → suc c < 2 ^ 32
      → get_elem? xs c ≡ some p
      → p < 2 ^ 51
      → on_pmm alloc_page k ≡ ok (page p) (drawn c k)
  unfolding on_pmm on_pmm_result
  alloc_page-drawn c p k cached fits obj small =
      rw
        (
          alloc_page-pops k.pmm c p cached.hart cached.count fits (rw cached.objs obj),
          pfn_to_addr_lem p small,
        )
        refl

  alloc_page-dry : (k : Kernel) → Cached 0 k → on_pmm alloc_page k ≡ halt spinning
  unfolding on_pmm on_pmm_result
  alloc_page-dry k cached = rw (alloc_page-spins k.pmm cached.hart cached.count) refl

  -- The new page is zero, and the entry `e` leads to it.
  abbrev pub hung : ℕ → ℕ → ℕ → Kernel → Kernel
  hung e p c k = record (drawn c k) {
    mem = λ b.
        if leb (page p) b && ltb b (page p + page_size)
        then 0
        else if b == e
        then table_word (page p)
        else k.mem b;
  }

  hang_table-taken :
      (e p : ℕ) (k : Kernel)
      → k.mem e ≡ 0
      → hang_table e (page p) k
        ≡ ok (some (page p)) (record k {
          mem = λ b.
              if leb (page p) b && ltb b (page p + page_size)
              then 0
              else if b == e
              then table_word (page p)
              else k.mem b;
        })
  unfolding hang_table cas_zero store zero_words
  hang_table-taken e p k word = rw (cas_zero, word) refl

  module _ (pt level va : ℕ) (k : Kernel) where
    pub next_table-valid :
        (a : ℕ)
        → IsPage a
        → k.mem (entry pt level va) ≡ table_word a
        → next_table pt level va true k ≡ ok (some a) k
    unfolding next_table load
    next_table-valid a here word = rw (word, table_word-v a here, table_word-pa a here) refl

    pub next_table-dry :
        k.mem (entry pt level va) ≡ 0 → Cached 0 k → next_table pt level va true k ≡ halt spinning
    unfolding next_table load new_table has_flag
    next_table-dry word cached = rw (word, alloc_page-dry k cached) refl

    pub next_table-hung :
        (c p : ℕ)
        → k.mem (entry pt level va) ≡ 0
        → Cached (suc c) k
        → suc c < 2 ^ 32
        → get_elem? xs c ≡ some p
        → p < 2 ^ 51
        → next_table pt level va true k ≡ ok (some (page p)) (hung (entry pt level va) p c k)
    unfolding next_table load new_table has_flag
    next_table-hung c p word cached fits obj small =
        let some_page : (page p == 0) ≡ false = ground arith in
        rw (word, alloc_page-drawn c p k cached fits obj small, some_page)
          (hang_table-taken (entry pt level va) p (drawn c k) word)
