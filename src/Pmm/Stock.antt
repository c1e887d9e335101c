-- ===== src/Pmm/Stock.antt =====
-- pmm_init: the caches that it fills from the buddy system.
use pke.Base.{
  ℕ, zero, suc, ◌+◌, ◌≤◌, ◌<◌, ◌≡◌, ◌≢◌, ◌⊎◌, ◌↔◌, refl, sym, ap, ◌∙◌, inl, inr, true, false,
  Bool-cases, List, [], ◌∷◌, ◌++◌, length, set, has, remove, Distinct, append-Distinct, has-append,
  has-remove_ne, List-cases, arith, Returns, returns, Returns-bind, Returns-mono, ◌==◌,
  if◌then◌else◌, length-append, ◌||◌,
}
use mathlib.Core.List.{append_assoc}
use pke.Pmm.Links.{max_order}
use pke.Pmm.State.{Pmm, addr_to_pfn, pcpu_cache_size, ncpu}
use pke.Pmm.Invariant.{Lists, IsBuddy}
use pke.Pmm.Blocks.{Covers}
use pke.Pmm.Alloc.{IsSmall, Taken, buddy_alloc-Taken}
use pke.Pmm.RoundTrip.{addr_to_pfn_lem}
use pke.Pmm.Init.{fill_cache, fill_caches}

length-remove : (a : ℕ) (xs : List ℕ) → has a xs ≡ true → length xs ≡ suc (length (remove a xs))
unfolding remove
length-remove a [] h = cc
length-remove a (x ∷ xs) h = ground (arith, length-remove a xs)

-- A list of fewer than `n` numbers misses one of the `n` numbers from `from` on.
missing :
    (n from : ℕ) (xs : List ℕ)
    → length xs < n
    → (q : ℕ) × (from ≤ q) × (q < from + n) × (has q xs ≡ false)
missing zero from xs h = absurd (omega arith)
missing (suc n) from xs h = elim (Bool-cases (has (from + n) xs)) [
  | inl inside ↦
      let r =
        missing n from (remove (from + n) xs) (omega (arith, length-remove (from + n) xs inside)) in
      (
        r.0,
        r.1,
        omega (arith, r.2),
        sym (has-remove_ne r.0 (from + n) xs (λ e. absurd (omega (arith, e, r.2)))) ∙ r.3,
      )
  | inr outside ↦ (from + n, omega arith, omega arith, outside)
]

set-length : (xs ys : List ℕ) (y v : ℕ) → set (xs ++ (y ∷ ys)) (length xs) v ≡ xs ++ (v ∷ ys)
set-length [] ys y v = refl
set-length (x ∷ xs) ys y v = ap (λ (zs : List ℕ). x ∷ zs) (set-length xs ys y v)

-- The pages from `from` to `end` are free or given out, none is both, and hart 0 has those that
-- were given out in the front of its cache.
pub record Stock (from end : ℕ) (given : List ℕ) (m : Pmm) : Type 0 where
  pub lists : Lists
  pub rest : List ℕ
  pub valid : IsBuddy m.area lists []
  pub small : IsSmall m.area
  pub unlocked : m.lock ≡ 0
  pub objs : (m.pcpu_caches 0).objs ≡ given ++ rest
  pub full : length (given ++ rest) ≡ pcpu_cache_size
  pub distinct : Distinct given
  pub pages : (q : ℕ) → ((has q given ≡ true) ⊎ Covers lists q) ↔ ((from ≤ q) × (q < end))
  pub apart : (q : ℕ) → has q given ≡ true → ¬ Covers lists q

Stock-some :
    {from end : ℕ} {given : List ℕ} {m : Pmm} (k : Stock from end given m)
    → from + pcpu_cache_size ≤ end
    → length given < pcpu_cache_size
    → (j : ℕ) × (j < max_order) × (k.lists j ≢ [])
Stock-some {from} {end} {given} k room few =
    let q = missing pcpu_cache_size from given few in
    elim ((k.pages q.0).1 (q.1, omega (arith, q.2, room))) [
      | inl h ↦ absurd (let o = q.3 in cc)
      | inr (j, x, hj, h, within) ↦ (j, hj, λ e. let z = rw e at h in cc)
    ]

-- `objs[j] = PFN_TO_PAGE(ADDR_TO_PFN(addr))` in the cache of hart 0.
abbrev put_obj : ℕ → ℕ → Pmm → Pmm
put_obj j pfn m = record m {
  pcpu_caches = λ i.
      if i == 0
      then record (m.pcpu_caches i) { objs = set (m.pcpu_caches i).objs j pfn }
      else m.pcpu_caches i;
}

module _ {from end : ℕ} {given : List ℕ} {m : Pmm} (k : Stock from end given m) (addr : ℕ) {t : Pmm}
    (taken : Taken m k.lists 0 addr t) (few : length given < pcpu_cache_size) where
  abbrev more : List ℕ
  more = given ++ (taken.pfn ∷ [])

  taken_pfn : addr_to_pfn addr ≡ taken.pfn
  taken_pfn = rw taken.address (addr_to_pfn_lem taken.pfn (omega (arith, taken.fits.1, k.small)))

  in_more : (q : ℕ) → has q more ≡ (has q given || (q == taken.pfn))
  in_more q = ground (arith, has-append q given (taken.pfn ∷ []))

  fresh : has taken.pfn given ≡ false
  fresh = elim (Bool-cases (has taken.pfn given)) [
    | inl h ↦
        absurd (k.apart taken.pfn h ((taken.free taken.pfn).1 (inl (omega arith, omega arith))))
    | inr h ↦ h
  ]

  in_more_cases : (q : ℕ) → has q more ≡ true → (has q given ≡ true) ⊎ (q ≡ taken.pfn)
  in_more_cases q h = elim (Bool-cases (has q given)) [
    | inl old ↦ inl old
    | inr new ↦ inr (ground (arith, in_more q))
  ]

  more_pages : (q : ℕ) → ((has q more ≡ true) ⊎ Covers taken.lists q) ↔ ((from ≤ q) × (q < end))
  more_pages q = (
    λ c. (k.pages q).0 (elim c [
      | inl h ↦ elim (in_more_cases q h) [
        | inl old ↦ inl old
        | inr e ↦ inr ((taken.free q).1 (inl (omega (arith, e), omega (arith, e))))
      ]
      | inr covered ↦ inr ((taken.free q).1 (inr covered))
    ]),
    λ r. elim ((k.pages q).1 r) [
      | inl old ↦ inl (in_more q ∙ ground arith)
      | inr covered ↦ elim ((taken.free q).0 covered) [
        | inl (lo, hi) ↦
            let e : q ≡ taken.pfn = omega (arith, lo, hi) in inl (in_more q ∙ ground arith)
        | inr c ↦ inr c
      ]
    ],
  )

  more_apart : (q : ℕ) → has q more ≡ true → ¬ Covers taken.lists q
  more_apart q h c = elim (in_more_cases q h) [
    | inl old ↦ k.apart q old ((taken.free q).1 (inr c))
    | inr e ↦ taken.gone q (omega (arith, e), omega (arith, e)) c
  ]

  same_caches : t.pcpu_caches ≡ m.pcpu_caches
  same_caches = ap (λ (u : Pmm). u.pcpu_caches) taken.same

  more_objs :
      (r : List ℕ)
      → (x : ℕ) → k.rest ≡ x ∷ r
      → ((put_obj (length given) (addr_to_pfn addr) t).pcpu_caches 0).objs ≡ more ++ r
  more_objs r x e =
      let old : (t.pcpu_caches 0).objs ≡ given ++ (x ∷ r) = rw (same_caches, k.objs, e) refl in
      rw (old, set-length given r x (addr_to_pfn addr), taken_pfn)
        (sym (append_assoc given (taken.pfn ∷ []) r))

  more-Stock :
      (r : List ℕ)
      → (x : ℕ) → k.rest ≡ x ∷ r
      → Stock from end more (put_obj (length given) (addr_to_pfn addr) t)
  more-Stock r x e = record {
    lists = taken.lists;
    rest = r;
    valid = taken.valid;
    small = rw taken.size k.small;
    unlocked = ap (λ (u : Pmm). u.lock) taken.same;
    objs = more_objs r x e;
    full =
        length-append more r
        ∙ omega (
          arith,
          length-append given (x ∷ r),
          length-append given (taken.pfn ∷ []),
          ap length e,
          ap (λ (l : List ℕ). length (given ++ l)) e,
          k.full,
        );
    distinct = append-Distinct taken.pfn given k.distinct fresh;
    pages = more_pages;
    apart = more_apart;
  }

-- `count = PCPU_CACHE_SIZE` in the cache of hart 0.
abbrev put_count : Pmm → Pmm
put_count m = record m {
  pcpu_caches =
      λ i. if i == 0 then record (m.pcpu_caches i) { count = pcpu_cache_size } else m.pcpu_caches i;
}

abbrev pub Stocked : ℕ → ℕ → Pmm → Type 0
Stocked from end t = (given : List ℕ) × (length given ≡ pcpu_cache_size) × Stock from end given t

rest_some :
    {from end : ℕ} {given : List ℕ} {m : Pmm} (k : Stock from end given m)
    → length given < pcpu_cache_size
    → (x : ℕ) × (r : List ℕ) × (k.rest ≡ x ∷ r)
rest_some {given} k few = elim (List-cases k.rest) [
  | inl e ↦ absurd (omega (arith, k.full, length-append given k.rest, ap length e))
  | inr c ↦ c
]

fill_cache-Stocked :
    {from end : ℕ} (rounds : ℕ) {given : List ℕ} {m : Pmm}
    → from + pcpu_cache_size ≤ end
    → length given + rounds ≡ pcpu_cache_size
    → Stock from end given m
    → Returns (λ _ t. Stocked from end t × (t.tp ≡ m.tp)) (fill_cache rounds 0 (length given) m)
unfolding fill_cache
fill_cache-Stocked zero {given} room e k = returns ((given, omega (arith, e), k), refl)
fill_cache-Stocked {from} {end} (suc rounds) {given} {m} room e k =
    let (j, hj, some) = Stock-some k room (omega (arith, e)) in
    let (x, r, first) = rest_some k (omega (arith, e)) in
    Returns-bind
      (buddy_alloc-Taken m k.valid 0 k.small k.unlocked (omega arith) j (omega arith) hj some)
      λ addr t taken.
        let more : List ℕ = given ++ (taken.pfn ∷ []) in
        let size : length more ≡ length given + 1 = length-append given (taken.pfn ∷ []) in
        let next =
          fill_cache-Stocked rounds {given = more} room (omega (arith, size, e))
            (more-Stock k addr taken (omega (arith, e)) r x first) in
        Returns-mono (rw size at next)
          λ _ u (stocked, tp). (stocked, tp ∙ ap (λ (u : Pmm). u.tp) taken.same)

pub fill_caches-Stocked :
    {from end : ℕ} {m : Pmm}
    → from + pcpu_cache_size ≤ end
    → Stock from end [] m
    → Returns
        (λ _ t. Stocked from end t × (t.tp ≡ m.tp) × ((t.pcpu_caches 0).count ≡ pcpu_cache_size))
        (fill_caches ncpu 0 m)
unfolding fill_caches
fill_caches-Stocked room k =
    Returns-bind (fill_cache-Stocked pcpu_cache_size room refl k) λ _ t ((given, size, s), tp).
      returns (
        (
          given,
          size,
          record {
            lists = s.lists;
            rest = s.rest;
            valid = s.valid;
            small = s.small;
            unlocked = s.unlocked;
            objs = s.objs;
            full = s.full;
            distinct = s.distinct;
            pages = s.pages;
            apart = s.apart;
          },
        ),
        tp,
        refl,
      )
