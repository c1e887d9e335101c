-- ===== src/Vmm/Tables.antt =====
-- The tables of the kernel's own map: one for each region of 2 MB.
use pke.Base.{
  ℕ, zero, suc, ◌+◌, ◌*◌, ◌/◌, ◌%◌, ◌^◌, ◌<◌, ◌≤◌, ◌≡◌, ◌≢◌, ◌⊎◌, inl, inr, refl, ◌∙◌, sym, true,
  false, ◌==◌, ltb, leb, ◌&&◌, List, length, get_elem?, has, some, arith, ok, ne→==_false, ==_refl,
  Partly, partly, gone, Partly-bind, halted, Bool-cases, lt→ltb,
}
use pke.Base.Bits.{and_mask}
use pke.Pmm.State.{page_size, dram_base}
use pke.Pmm.Budget.{get_elem?-has, below-some}
use pke.Kernel.{Kernel, load, store, write_mem}
use pke.Vmm.Pte.{pte_v, has_flag, px, max_va}
use pke.Vmm.Walk.{entry, next_table, page_walk, walk_down, leaf_of}
use pke.Vmm.Maps.{map_page}
use pke.Vmm.Supply.{
  table_word, IsPage, Cached, page, hung, next_table-valid, next_table-dry, next_table-hung,
}

-- An address of the 128 MB from dram_base on, in the region `r` of 2 MB.
abbrev pub InRegion : ℕ → ℕ → Type 0
InRegion r va = (va / 2 ^ 21 ≡ 1024 + r) × (r < 64)

pub px-top : (r va : ℕ) → InRegion r va → px 2 va ≡ 2
unfolding px
px-top r va (e, h) = and_mask 9 (va / 2 ^ 30) ∙ omega (arith, e, h)

px-medium : (r va : ℕ) → InRegion r va → px 1 va ≡ r
unfolding px
px-medium r va (e, h) = and_mask 9 (va / 2 ^ 21) ∙ omega (arith, e, h)

px-leaf : (va : ℕ) → px 0 va < 512
unfolding px
px-leaf va = omega (arith, and_mask 9 (va / 2 ^ 12))

module _ (xs : List ℕ) (small : (q : ℕ) → has q xs ≡ true → q < 2 ^ 43) (dir medium : ℕ) where
  -- `n` regions have a table, `leaves` is the last one, and `c` pages are left in the cache.
  pub record Mapping (leaves n c : ℕ) (k : Kernel) : Type 0 where
    pub cached : Cached xs c k
    pub room : c ≤ length xs
    pub budget : c + n ≡ 30
    pub top : k.mem (dir + 16) ≡ table_word medium
    pub low : (i : ℕ) → n ≡ suc i → k.mem (medium + i * 8) ≡ table_word leaves
    pub rest : (j : ℕ) → n ≤ j → j < 512 → k.mem (medium + j * 8) ≡ 0
    pub dir_page : IsPage dir
    pub medium_page : IsPage medium
    pub leaves_page : 0 < n → IsPage leaves
    pub apart : dir ≢ medium
    pub leaves_apart : 0 < n → (leaves ≢ dir) × (leaves ≢ medium)
    pub unused :
        (i p : ℕ) → i < c → get_elem? xs i ≡ some p → (page xs p ≢ dir) × (page xs p ≢ medium)

  outside_page :
      (a off p : ℕ)
      → a % page_size ≡ 0
      → off < page_size
      → a ≢ p * page_size + dram_base
      → (leb (p * page_size + dram_base) (a + off)
          && ltb (a + off) (p * page_size + dram_base + page_size))
        ≡ false
  outside_page a off p aligned lt ne =
      elim (Bool-cases (
        leb (p * page_size + dram_base) (a + off)
        && ltb (a + off) (p * page_size + dram_base + page_size))) [
          | inl inside ↦ absurd (
              ne (
                let h : (p * page_size + dram_base ≤ a + off)
                    × (a + off < p * page_size + dram_base + page_size) =
                  ground arith in
                omega (arith, h, aligned)))
          | inr out ↦ out
        ]

  -- An entry of another table does not change when a page is hung.
  pub hung-other :
      (e p c a off : ℕ) (k : Kernel)
      → a % page_size ≡ 0
      → off < page_size
      → a ≢ page xs p
      → a + off ≢ e
      → (hung xs e p c k).mem (a + off) ≡ k.mem (a + off)
  hung-other e p c a off k aligned lt ne ne' =
      rw (outside_page a off p aligned lt ne, ne→==_false (a + off) e ne') refl

  pub hung-entry :
      (p c a off : ℕ) (k : Kernel)
      → a % page_size ≡ 0
      → off < page_size
      → a ≢ page xs p
      → (hung xs (a + off) p c k).mem (a + off) ≡ table_word (page xs p)
  hung-entry p c a off k aligned lt ne =
      rw (outside_page a off p aligned lt ne, ==_refl (a + off)) refl

  pub distinct_entries :
      (a b x y : ℕ) → IsPage a → IsPage b → a ≢ b → x < page_size → y < page_size → a + x ≢ b + y
  distinct_entries a b x y (ha, sa) (hb, sb) ne hx hy e = ne (omega (arith, e, ha, hb))

  module _ {leaves n c : ℕ} {k : Kernel} where
    hung-Mapping :
        (p : ℕ)
        → Mapping leaves n (suc c) k
        → get_elem? xs c ≡ some p
        → Mapping (page xs p) (suc n) c (hung xs (medium + n * 8) p c k)
    hung-Mapping p m obj =
        let bound : p < 2 ^ 43 = small p (get_elem?-has xs c p obj) in
        let ne = m.unused c p (omega arith) obj in
        record {
          cached = record { hart = m.cached.hart; count = refl; objs = m.cached.objs };
          room = omega (arith, m.room);
          budget = omega (arith, m.budget);
          top =
              hung-other (medium + n * 8) p c dir 16 k m.dir_page.0 (omega arith)
                (λ e. ne.0 (sym e))
                (distinct_entries dir medium 16 (n * 8) m.dir_page m.medium_page m.apart
                  (omega arith) (omega (arith, m.budget)))
              ∙ m.top;
          low = λ i e.
              let e' : i ≡ n = omega (arith, e) in
              rw e' (
                hung-entry p c medium (n * 8) k m.medium_page.0 (omega (arith, m.budget))
                  (λ e. ne.1 (sym e)));
          rest = λ j le lt.
              hung-other (medium + n * 8) p c medium (j * 8) k m.medium_page.0 (omega (arith, lt))
                (λ e. ne.1 (sym e)) (λ e. absurd (omega (arith, e, le)))
              ∙ m.rest j (omega (arith, le)) lt;
          dir_page = m.dir_page;
          medium_page = m.medium_page;
          leaves_page = λ pos. (omega arith, omega arith);
          apart = m.apart;
          leaves_apart = λ pos. ne;
          unused = λ i q lt obj'. m.unused i q (omega (arith, lt)) obj';
        }

    write_kept :
        (o v : ℕ)
        → 0 < n
        → o < 512
        → Mapping leaves n c k
        → (j : ℕ) → j < 512
        → (write_mem (leaves + o * 8) v k).mem (medium + j * 8) ≡ k.mem (medium + j * 8)
    write_kept o v pos lt m j hj =
        rw
          (ne→==_false (medium + j * 8) (leaves + o * 8) (
            distinct_entries medium leaves (j * 8) (o * 8) m.medium_page (m.leaves_page pos)
              (λ e. (m.leaves_apart pos).1 (sym e)) (omega (arith, hj)) (omega (arith, lt))))
          refl

    write-Mapping :
        (o v : ℕ)
        → 0 < n
        → o < 512
        → Mapping leaves n c k
        → Mapping leaves n c (write_mem (leaves + o * 8) v k)
    write-Mapping o v pos lt m =
        let page_ok = m.leaves_page pos in
        let ne = m.leaves_apart pos in
        record {
          cached = record { hart = m.cached.hart; count = m.cached.count; objs = m.cached.objs };
          room = m.room;
          budget = m.budget;
          top =
              rw
                (ne→==_false (dir + 16) (leaves + o * 8) (
                  distinct_entries dir leaves 16 (o * 8) m.dir_page page_ok (λ e. ne.0 (sym e))
                    (omega arith) (omega arith)))
                m.top;
          low = λ i e. write_kept o v pos lt m i (omega (arith, e, m.budget)) ∙ m.low i e;
          rest = λ j le hj. write_kept o v pos lt m j hj ∙ m.rest j le hj;
          dir_page = m.dir_page;
          medium_page = m.medium_page;
          leaves_page = m.leaves_page;
          apart = m.apart;
          leaves_apart = m.leaves_apart;
          unused = m.unused;
        }

  -- After a page of the region `r` was looked for: the region has a table, the last one.
  abbrev pub Reached : ℕ → ℕ → Kernel → Type 0
  Reached r leaves k = (c : ℕ) × Mapping leaves (suc r) c k

  -- The table for an address of the last region or of the next.
  pub descend :
      (leaves n c r va : ℕ) (k : Kernel)
      → Mapping leaves n c k
      → InRegion r va
      → (suc r ≡ n) ⊎ (r ≡ n)
      → Partly (λ t k'. (a : ℕ) × (t ≡ some a) × Reached r a k') (next_table medium 1 va true k)
  descend leaves n c r va k m h (inl e) =
      let word : k.mem (entry medium 1 va) ≡ table_word leaves =
        rw (px-medium r va h) (m.low r (sym e)) in
      rw (next_table-valid xs medium 1 va k leaves (m.leaves_page (omega (arith, e))) word)
        (partly (leaves, refl, (c, rw e m)))
  descend leaves n zero r va k m h (inr e) =
      let word : k.mem (entry medium 1 va) ≡ 0 =
        rw (px-medium r va h) (m.rest r (omega (arith, e)) (omega (arith, h.1))) in
      rw (next_table-dry xs medium 1 va k word m.cached) (gone halted)
  descend leaves n (suc c) r va k m h (inr e) =
      let word : k.mem (entry medium 1 va) ≡ 0 =
        rw (px-medium r va h) (m.rest r (omega (arith, e)) (omega (arith, h.1))) in
      let (p, obj) = below-some xs c (omega (arith, m.room)) in
      let bound : p < 2 ^ 43 = small p (get_elem?-has xs c p obj) in
      let run =
        next_table-hung xs medium 1 va k c p word m.cached (omega (arith, m.budget)) obj
          (omega (arith, bound)) in
      rw (run, px-medium r va h, e) (partly (page xs p, refl, (c, hung-Mapping p m obj)))

  -- page_walk, when the table of the second level is found or made.
  page_walk-Reached :
      (r va : ℕ) (k k' : Kernel)
      → InRegion r va
      → next_table dir 2 va true k ≡ ok (some medium) k'
      → Partly (λ t u. (a : ℕ) × (t ≡ some a) × Reached r a u) (next_table medium 1 va true k')
      → Partly (λ e u. (a : ℕ) × (e ≡ entry a 0 va) × Reached r a u) (page_walk dir va 0 true k)
  unfolding page_walk walk_down leaf_of
  page_walk-Reached r va k k' h top next =
      let positive : ltb 0 va ≡ true = lt→ltb 0 va (omega (arith, h.0)) in
      let below : ltb va max_va ≡ true = lt→ltb va max_va (omega (arith, h.0, h.1)) in
      rw (positive, below, top)
        (Partly-bind {P = λ t u. (a : ℕ) × (t ≡ some a) × Reached r a u}
          (Partly-bind next λ t u (a, e, reached). rw e (partly (a, refl, reached)))
          λ t u (a, e, reached). rw e (partly (a, refl, reached)))

  pub map_page-Reached :
      (r va pa perm : ℕ) (k k' : Kernel)
      → InRegion r va
      → next_table dir 2 va true k ≡ ok (some medium) k'
      → Partly (λ t u. (a : ℕ) × (t ≡ some a) × Reached r a u) (next_table medium 1 va true k')
      → Partly (λ fine u. fine ≡ true → (a : ℕ) × Reached r a u) (map_page dir va pa perm k)
  unfolding map_page load store
  map_page-Reached r va pa perm k k' h top next =
      Partly-bind (page_walk-Reached r va k k' h top next) λ e u (a, ea, reached).
        rw ea (elim (Bool-cases (entry a 0 va == 0)) [
          | inl null ↦ rw null (partly λ e. cc)
          | inr there ↦ elim (Bool-cases (has_flag (u.mem (entry a 0 va)) pte_v)) [
            | inl taken ↦ rw (there, taken) (gone halted)
            | inr free ↦
                rw (there, free)
                  (partly λ e. (
                    a,
                    (reached.0, write-Mapping (px 0 va) _ (omega arith) (px-leaf va) reached.1),
                  ))
          ]
        ])
