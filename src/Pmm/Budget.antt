-- ===== src/Pmm/Budget.antt =====
-- The pages that alloc_page hands out after pmm_init.
use pke.Base.{
  ℕ, zero, suc, ◌+◌, ◌*◌, ◌^◌, ◌≤◌, ◌<◌, ◌≡◌, refl, ap, ◌∙◌, inl, inr, true, false, Bool-cases,
  List, [], ◌∷◌, ◌++◌, length, has, Distinct, ==_iff, arith, Returns, returns, Returns-bind,
  Returns-mono, ◌==◌, length-append, ◌%◌, Cmd, and_then, pure, ◌>>=◌, halt, spinning, get_elem?,
  some,
}
use mathlib.Core.List.{append-nil}
use native.Mathlib.Nat.{min-le_left}
use pke.Pmm.State.{Pmm, page_size, dram_base, pcpu_cache_size, pfn_to_addr}
use pke.Pmm.Alloc.{pfn_to_addr_lem}
use pke.Pmm.Init.{pmm_init, pke_max_allowable_ram}
use pke.Pmm.Cache.{alloc_page, write_cache}
use pke.Pmm.Reuse.{alloc_page-pops, alloc_page-spins}
use pke.Pmm.Supply.{managed_pages, descriptors_end, pmm_init-Stocked}

-- alloc_page, `n` times.
unfoldable pub alloc_pages : ℕ → Cmd Pmm (List ℕ)
alloc_pages zero = pure []
alloc_pages (suc n) = do addr ← alloc_page; addrs ← alloc_pages n; pure (addr ∷ addrs)

pub get_elem?-has : (xs : List ℕ) (i p : ℕ) → get_elem? xs i ≡ some p → has p xs ≡ true
get_elem?-has [] i p e = cc
get_elem?-has (x ∷ xs) zero p e = ground arith
get_elem?-has (x ∷ xs) (suc i) p e = ground (arith, get_elem?-has xs i p e)

pub Distinct-index :
    (xs : List ℕ) (i j p : ℕ)
    → Distinct xs
    → get_elem? xs i ≡ some p
    → get_elem? xs j ≡ some p
    → i ≡ j
Distinct-index [] i j p d e f = cc
Distinct-index (x ∷ xs) zero zero p d e f = refl
Distinct-index (x ∷ xs) zero (suc j) p d e f = let h = get_elem?-has xs j p f in ground arith
Distinct-index (x ∷ xs) (suc i) zero p d e f = let h = get_elem?-has xs i p e in ground arith
Distinct-index (x ∷ xs) (suc i) (suc j) p d e f = ap suc (Distinct-index xs i j p d.1 e f)

pub below-some : (xs : List ℕ) (i : ℕ) → i < length xs → (p : ℕ) × (get_elem? xs i ≡ some p)
below-some [] i h = absurd (omega arith)
below-some (x ∷ xs) zero h = (x, refl)
below-some (x ∷ xs) (suc i) h = below-some xs i (omega arith)

module _ (xs : List ℕ) (distinct : Distinct xs)
    (small : (q : ℕ) → has q xs ≡ true → q < 2 ^ 51) where
  -- An address of the pages below the index `n` in the cache.
  abbrev pub AddrBelow : ℕ → ℕ → Type 0
  AddrBelow n a =
      (i : ℕ) × (p : ℕ) × (i < n) × (get_elem? xs i ≡ some p) × (a ≡ p * page_size + dram_base)

  abbrev pub Handed : ℕ → List ℕ → Pmm → Type 0
  Handed n addrs t =
      (length addrs ≡ n)
      × Distinct addrs
      × ((a : ℕ) → has a addrs ≡ true → AddrBelow n a)
      × (t.tp ≡ 0)
      × ((t.pcpu_caches 0).count ≡ 0)

  Handed-fresh :
      (n p : ℕ) (addrs : List ℕ) (u : Pmm)
      → get_elem? xs n ≡ some p
      → Handed n addrs u
      → has (p * page_size + dram_base) addrs ≡ false
  Handed-fresh n p addrs u obj (size, apart, below, hart, count) =
      elim (Bool-cases (has (p * page_size + dram_base) addrs)) [
        | inl h ↦
            let (i, q, lt, obj', e) = below (p * page_size + dram_base) h in
            let e' : q ≡ p = omega (arith, e) in
            absurd (omega (arith, lt, Distinct-index xs i n p distinct (rw e' at obj') obj))
        | inr h ↦ h
      ]

  Handed-more :
      (n p : ℕ) (addrs : List ℕ) (u : Pmm)
      → get_elem? xs n ≡ some p
      → Handed n addrs u
      → Handed (suc n) (pfn_to_addr p ∷ addrs) u
  Handed-more n p addrs u obj (size, apart, below, hart, count) =
      rw (pfn_to_addr_lem p (small p (get_elem?-has xs n p obj))) (
        ap suc size,
        (Handed-fresh n p addrs u obj (size, apart, below, hart, count), apart),
        (λ a h. elim (Bool-cases (a == p * page_size + dram_base)) [
          | inl e ↦ (n, p, omega arith, obj, (==_iff a (p * page_size + dram_base)).0 e)
          | inr e ↦
              let (i, q, lt, obj', e') = below a (let z = rw e at h in z) in
              (i, q, omega (arith, lt), obj', e')
        ]),
        hart,
        count,
      )

  pub alloc_pages-Handed :
      (n : ℕ) (m : Pmm)
      → m.tp ≡ 0
      → (m.pcpu_caches 0).count ≡ n
      → n < 2 ^ 32
      → (m.pcpu_caches 0).objs ≡ xs
      → n ≤ length xs
      → Returns (Handed n) (alloc_pages n m)
  unfolding alloc_pages
  alloc_pages-Handed zero m hart count fits objs room = returns (refl, tt, λ a h. cc, hart, count)
  alloc_pages-Handed (suc n) m hart count fits objs room =
      let (p, obj) = below-some xs n (omega arith) in
      let t : Pmm = write_cache 0 (record (m.pcpu_caches 0) { count = n }) m in
      rw (alloc_page-pops m n p hart count fits (rw objs obj)) (
        Returns-bind (alloc_pages-Handed n t hart refl (omega arith) objs (omega arith))
          λ addrs u handed. returns (Handed-more n p addrs u obj handed))

pub all_given :
    (xs ys : List ℕ)
    → length xs ≡ pcpu_cache_size
    → length (xs ++ ys) ≡ pcpu_cache_size
    → xs ++ ys ≡ xs
all_given xs [] a b = append-nil xs
all_given xs (y ∷ ys) a b = absurd (omega (arith, length-append xs (y ∷ ys)))

-- On hart 0, under the conditions of pmm_init-Stocked: after pmm_init, 32 calls of alloc_page
-- return 32 distinct page addresses that lie behind the page descriptors and in memory, and the
-- 33rd call never comes back.
pub pmm_init-alloc_pages :
    (m : Pmm) (kernel_end : ℕ)
    → m.tp ≡ 0
    → dram_base ≤ kernel_end
    → descriptors_end kernel_end m + 8 + 33 * page_size ≤ managed_pages m * page_size + dram_base
    → length (m.pcpu_caches 0).objs ≡ pcpu_cache_size
    → Returns
        (λ addrs t.
          (length addrs ≡ 32)
          × Distinct addrs
          × ((a : ℕ)
              → has a addrs ≡ true
              → (a % page_size ≡ 0)
                × (descriptors_end kernel_end m ≤ a)
                × (a + page_size ≤ managed_pages m * page_size + dram_base))
          × (alloc_page t ≡ halt spinning))
        (and_then (pmm_init kernel_end m) λ _. alloc_pages 32)
pmm_init-alloc_pages m kernel_end hart lo room size =
    Returns-bind (pmm_init-Stocked m kernel_end lo room size)
      λ _ t (from, above, near, (given, full, k), tp, count).
        let none_left : given ++ k.rest ≡ given = all_given given k.rest full k.full in
        let within : (q : ℕ) → has q given ≡ true → (from ≤ q) × (q < managed_pages m) =
          λ q h. (k.pages q).0 (inl h) in
        Returns-mono
          (alloc_pages-Handed given k.distinct
            (λ q h. omega (arith, (within q h).1, min-le_left pke_max_allowable_ram m.g_mem_size))
            32 t (tp ∙ hart) count (omega arith) (k.objs ∙ none_left) (omega (arith, full)))
          λ addrs u (n, apart, below, hart', empty). (
            n,
            apart,
            λ a h.
                (let (i, p, lt, obj, e) = below a h in
                  let w = within p (get_elem?-has given i p obj) in
                  (omega (arith, e), omega (arith, e, w.0, above), omega (arith, e, w.1))),
            alloc_page-spins u hart' empty,
          )
