-- ===== src/Vmm/Fresh.antt =====
-- The first page that is mapped below an entry of a page directory: page_walk makes its tables.
use pke.Base.{
  ℕ, suc, ◌+◌, ◌-◌, ◌*◌, ◌/◌, ◌%◌, ◌^◌, ◌<◌, ◌≤◌, Bool-cases, inl, inr, ◌≡◌, ◌≢◌, refl, ◌∙◌, true,
  false, ltb, leb, ◌&&◌, List, has, get_elem?, some, arith, ok, Returns, returns, ne→==_false,
  lt→ltb, ==_refl,
}
use pke.Base.Bits.{and_mask}
use pke.Pmm.State.{page_size, dram_base}
use pke.Pmm.Budget.{get_elem?-has}
use pke.Pmm.Init.{round_down}
use pke.Pmm.Start.{round_down-page}
use pke.Kernel.{Kernel, load, store, write_mem}
use pke.Vmm.Pte.{pte_v, has_flag, px, max_va}
use pke.Vmm.Walk.{entry, page_walk, walk_down, leaf_of}
use pke.Vmm.Maps.{map_page, map_loop, map_pages, lookup_pa}
use pke.Vmm.Lookup.{
  Reaches, Reaches-write, Mappable, leaf_word, lookup_pa-leaf, map_loop-step, map_loop-stop,
}
use pke.Vmm.Supply.{
  table_word, table_word-v, table_word-pa, IsPage, Cached, page, hung, next_table-hung,
}
use pke.Vmm.Tables.{hung-other, hung-entry, distinct_entries}

px-bound : (level va : ℕ) → px level va < 512
unfolding px
px-bound level va = omega (arith, and_mask 9 (va / 2 ^ (12 + 9 * level)))

no_flag : has_flag 0 pte_v ≡ false
unfolding has_flag
no_flag = refl

outside_page :
    (a r : ℕ)
    → a / page_size ≢ (r * page_size + dram_base) / page_size
    → (leb (r * page_size + dram_base) a && ltb a (r * page_size + dram_base + page_size)) ≡ false
outside_page a r ne =
    elim (Bool-cases
      (leb (r * page_size + dram_base) a && ltb a (r * page_size + dram_base + page_size))) [
        | inl inside ↦
            let h : (r * page_size + dram_base ≤ a) × (a < r * page_size + dram_base + page_size) =
              ground arith in
            absurd (ne (omega (arith, h)))
        | inr out ↦ out
      ]

-- An entry of a table lies in the table.
in_page :
    (a r o : ℕ)
    → o < 512
    → a / page_size ≢ (r * page_size + dram_base) / page_size
    → a ≢ r * page_size + dram_base + o * 8
in_page a r o lt ne e = ne (omega (arith, e, lt))

module _ (xs : List ℕ) (small : (q : ℕ) → has q xs ≡ true → q < 2 ^ 43) (dir va p q c : ℕ)
    (k : Kernel) where
  -- Nothing is mapped below the entry for `va`, and the pages `p` and `q` are on top of the cache.
  pub record Unmapped : Type 0 where
    pub empty : k.mem (entry dir 2 va) ≡ 0
    pub cached : Cached xs (suc (suc c)) k
    pub fits : suc (suc c) < 2 ^ 32
    pub first : get_elem? xs (suc c) ≡ some p
    pub second : get_elem? xs c ≡ some q
    pub differ : p ≢ q
    pub dir_page : IsPage dir
    pub dir_p : dir ≢ page xs p
    pub dir_q : dir ≢ page xs q
    pub positive : 0 < va
    pub below : va < max_va

  abbrev medium : ℕ
  medium = page xs p

  abbrev pub fresh_leaf : ℕ
  fresh_leaf = entry (page xs q) 0 va

  abbrev one_table : Kernel
  one_table = hung xs (entry dir 2 va) p (suc c) k

  -- With the two tables.
  abbrev pub two_tables : Kernel
  two_tables = hung xs (entry medium 1 va) q c one_table

  module _ (u : Unmapped) where
    p_small : p < 2 ^ 43
    p_small = small p (get_elem?-has xs (suc c) p u.first)

    q_small : q < 2 ^ 43
    q_small = small q (get_elem?-has xs c q u.second)

    medium-IsPage : IsPage medium
    medium-IsPage = let b = p_small in (omega arith, omega (arith, b))

    leaves-IsPage : IsPage (page xs q)
    leaves-IsPage = let b = q_small in (omega arith, omega (arith, b))

    medium_empty : one_table.mem (entry medium 1 va) ≡ 0
    medium_empty =
        let b = px-bound 1 va in
        let inside : (leb (page xs p) (entry medium 1 va)
              && ltb (entry medium 1 va) (page xs p + page_size))
            ≡ true =
          ground arith in
        rw inside refl

    leaf_empty : two_tables.mem fresh_leaf ≡ 0
    leaf_empty =
        let b = px-bound 0 va in
        let inside : (leb (page xs q) fresh_leaf && ltb fresh_leaf (page xs q + page_size)) ≡ true =
          ground arith in
        rw inside refl

    tables_apart : medium ≢ page xs q
    tables_apart e = u.differ (omega (arith, e))

    top_word : two_tables.mem (entry dir 2 va) ≡ table_word medium
    top_word =
        let b = px-bound 2 va in
        let b' = px-bound 1 va in
        hung-other xs small dir medium (entry medium 1 va) q c dir (px 2 va * 8) one_table
          u.dir_page.0 (omega (arith, b)) u.dir_q
          (distinct_entries xs small dir medium dir medium _ _ u.dir_page medium-IsPage u.dir_p
            (omega (arith, b)) (omega (arith, b')))
        ∙ hung-entry xs small dir medium p (suc c) dir (px 2 va * 8) k u.dir_page.0
            (omega (arith, b)) u.dir_p

    medium_word : two_tables.mem (entry medium 1 va) ≡ table_word (page xs q)
    medium_word =
        let b = px-bound 1 va in
        hung-entry xs small dir medium q c medium (px 1 va * 8) one_table medium-IsPage.0
          (omega (arith, b)) tables_apart

    two_tables-Reaches : Reaches two_tables dir va fresh_leaf
    two_tables-Reaches = record {
      leaves = page xs q;
      walks = record {
        medium = medium;
        top_valid = rw top_word (table_word-v medium medium-IsPage);
        top = rw top_word (table_word-pa medium medium-IsPage);
        medium_valid = rw medium_word (table_word-v (page xs q) leaves-IsPage);
        low = rw medium_word (table_word-pa (page xs q) leaves-IsPage);
      };
      here = refl;
      not_null = λ e. absurd (omega (arith, e));
      not_top =
          distinct_entries xs small dir medium dir (page xs q) _ _ u.dir_page leaves-IsPage u.dir_q
            (omega (arith, px-bound 2 va)) (omega (arith, px-bound 0 va));
      not_medium =
          distinct_entries xs small dir medium medium (page xs q) _ _ medium-IsPage leaves-IsPage
            tables_apart (omega (arith, px-bound 1 va)) (omega (arith, px-bound 0 va));
      positive = u.positive;
      below = u.below;
    }

    page_walk-fresh : page_walk dir va 0 true k ≡ ok fresh_leaf two_tables
    unfolding page_walk walk_down leaf_of
    page_walk-fresh =
        let s = p_small in
        let s' = q_small in
        rw
          (
            lt→ltb 0 va u.positive,
            lt→ltb va max_va u.below,
            next_table-hung xs dir 2 va k (suc c) p u.empty u.cached u.fits u.first
                (omega (arith, s)),
            next_table-hung xs medium 1 va one_table c q medium_empty
                (record { hart = u.cached.hart; count = refl; objs = u.cached.objs })
                (omega (arith, u.fits)) u.second (omega (arith, s')),
          )
          refl

    module _ (pa perm : ℕ) where
      abbrev filled : Kernel
      filled = write_mem fresh_leaf (leaf_word pa perm) two_tables

      map_page-fresh : map_page dir va pa perm k ≡ ok true filled
      unfolding map_page load store
      map_page-fresh =
          let free : has_flag (two_tables.mem fresh_leaf) pte_v ≡ false = rw leaf_empty no_flag in
          rw (page_walk-fresh, ne→==_false fresh_leaf 0 (two_tables-Reaches.not_null), free) refl

      map_loop-fresh : (fuel : ℕ) → map_loop (suc (suc fuel)) dir va va pa perm k ≡ ok true filled
      map_loop-fresh fuel =
          map_loop-step (suc fuel) dir va va pa perm k filled (ground arith) map_page-fresh
          ∙ map_loop-stop fuel dir ((va + page_size) % 2 ^ 64) va ((pa + page_size) % 2 ^ 64) perm
              filled (let b = u.below in ground arith)

      -- map_pages on one page above 0 and below MAXVA, where the entry of the page directory is 0,
      -- the cache of hart 0 has two pages on top that are apart and are not the directory, all
      -- pages of the cache have numbers below 2 ^ 43, and the page and its flags fit in an entry: it
      -- returns 0 and has taken the two pages from the cache as tables, lookup_pa then finds the
      -- page, and only words of the two tables and the entry of the directory have changed.
      pub map_pages-fresh :
          va % page_size ≡ 0
          → Mappable pa perm
          → Returns
              (λ fine t.
                (fine ≡ true)
                × (lookup_pa dir va t ≡ ok pa t)
                × Cached xs c t
                × ((a : ℕ)
                    → a / page_size ≢ page xs p / page_size
                    → a / page_size ≢ page xs q / page_size
                    → a ≢ entry dir 2 va
                    → t.mem a ≡ k.mem a))
              (map_pages dir va page_size pa perm k)
      unfolding map_pages
      map_pages-fresh aligned m =
          let first : round_down va page_size ≡ va =
            round_down-page va (omega (arith, u.below)) ∙ omega arith in
          let stop_at : round_down ((va + page_size + 2 ^ 64 - 1) % 2 ^ 64) page_size ≡ va =
            round_down-page _ (omega arith) ∙ omega (arith, u.below) in
          rw (first, stop_at, map_loop-fresh ((va - va) / page_size))
            (returns (
              refl,
              lookup_pa-leaf filled dir va fresh_leaf pa perm m (rw (==_refl fresh_leaf) refl)
                  (Reaches-write (leaf_word pa perm) two_tables-Reaches),
              record { hart = u.cached.hart; count = refl; objs = u.cached.objs },
              λ a off_p off_q other.
                  rw
                    (
                      ne→==_false a fresh_leaf (in_page a q (px 0 va) (px-bound 0 va) off_q),
                      outside_page a q off_q,
                      ne→==_false a (entry medium 1 va)
                          (in_page a p (px 1 va) (px-bound 1 va) off_p),
                      outside_page a p off_p,
                      ne→==_false a (entry dir 2 va) other,
                    )
                    refl,
            ))
