-- ===== src/Pmm/Coverage.antt =====
-- The loop of buddy_system_init makes exactly the pages of its range free.
use pke.Base.{
  ℕ, zero, suc, ◌+◌, ◌-◌, ◌*◌, ◌/◌, ◌%◌, ◌^◌, ◌≤◌, ◌<◌, ◌≡◌, refl, ◌↔◌, inl, inr, true, false, [],
  ◌∷◌, subst, arith, has, Bool-cases, ◌==◌, if◌then◌else◌, ok, ltb, ltb→lt, lt→ltb, ltb_false→le,
  le→ltb_false, sym, ◌∙◌, ap, Returns, returns, Returns-mono,
}
use pke.Base.Bits.{pow-add}
use native.Mathlib.Nat.{one-le-pow, pow-suc, add-mul-mod_self_right}
use pke.Pmm.Links.{max_order, head, node, list_add}
use pke.Pmm.State.{Page, Area, write_page, load_page-ok, store_page-ok, page_size, dram_base}
use pke.Pmm.Invariant.{Lists, put_list, Fits, IsBuddy, new_or_old, attach, rewrite_page, relist}
use pke.Pmm.Blocks.{Covers, Covers-put, eq_mul_of_mod, mul_mod}
use pke.Pmm.Alloc.{IsSmall}
use pke.Pmm.RoundTrip.{addr_to_pfn_lem}
use pke.Pmm.Init.{trailing_zeros, highest_bit, block_order, add_block, init_loop}

pub trailing_zeros-mod : (bits n : ℕ) → n % 2 ^ trailing_zeros bits n ≡ 0
unfolding trailing_zeros
trailing_zeros-mod zero n = omega arith
trailing_zeros-mod (suc bits) n = elim (Bool-cases (n % 2 == 0)) [
  | inl even ↦
      let t : ℕ = trailing_zeros bits (n / 2) in
      let k : ℕ = n / 2 / 2 ^ t in
      let half : n / 2 ≡ k * 2 ^ t =
        eq_mul_of_mod (n / 2) (2 ^ t) (trailing_zeros-mod bits (n / 2)) in
      let whole : n ≡ n / 2 * 2 = ground arith in
      let e : n ≡ k * 2 ^ suc t = omega (arith, ap (λ (u : ℕ). k * u) (pow-suc 2 t)) in
      rw even (subst (λ m. m % 2 ^ suc t ≡ 0) (sym e) (mul_mod k (2 ^ suc t)))
  | inr odd ↦ rw odd (omega arith)
]

pub highest_bit-le : (bits n : ℕ) → 0 < n → 2 ^ highest_bit bits n ≤ n
unfolding highest_bit
highest_bit-le zero n h = h
highest_bit-le (suc bits) n h = elim (Bool-cases (n / 2 == 0)) [
  | inl one ↦ rw one h
  | inr more ↦
      let rest = highest_bit-le bits (n / 2) (ground arith) in
      rw more (omega (arith, pow-suc 2 (highest_bit bits (n / 2))))
]

-- A multiple of a power of two is a multiple of each smaller one.
mod_of_le : (n a o : ℕ) → o ≤ a → n % 2 ^ a ≡ 0 → n % 2 ^ o ≡ 0
mod_of_le n a o le h =
    let k : ℕ = n / 2 ^ a in
    let e : a ≡ a - o + o = omega arith in
    let p : 2 ^ a ≡ 2 ^ (a - o) * 2 ^ o = ap (λ (t : ℕ). 2 ^ t) e ∙ pow-add (a - o) o in
    let whole : n ≡ k * 2 ^ (a - o) * 2 ^ o =
      eq_mul_of_mod n (2 ^ a) h ∙ (ap (λ (t : ℕ). k * t) p ∙ omega arith) in
    subst (λ m. m % 2 ^ o ≡ 0) (sym whole) (mul_mod (k * 2 ^ (a - o)) (2 ^ o))

mod_less_base : (n o : ℕ) → o ≤ 19 → (n + 2 ^ 19) % 2 ^ o ≡ 0 → n % 2 ^ o ≡ 0
mod_less_base n o le h =
    let e : 19 ≡ 19 - o + o = omega arith in
    let p : 2 ^ 19 ≡ 2 ^ (19 - o) * 2 ^ o = ap (λ (t : ℕ). 2 ^ t) e ∙ pow-add (19 - o) o in
    sym (add-mul-mod_self_right n (2 ^ (19 - o)) (2 ^ o))
    ∙ (ap (λ (t : ℕ). (n + t) % 2 ^ o) (sym p) ∙ h)

-- `curr_addr` and `stop_addr` are the addresses of the pages `p` and `e`.
abbrev pub addr_of : ℕ → ℕ
addr_of p = p * page_size + dram_base

pow_mono : (o a : ℕ) → o ≤ a → 2 ^ o ≤ 2 ^ a
pow_mono o a le =
    let e : a ≡ a - o + o = omega arith in
    let p : 2 ^ a ≡ 2 ^ (a - o) * 2 ^ o = ap (λ (t : ℕ). 2 ^ t) e ∙ pow-add (a - o) o in
    let one : 1 ≤ 2 ^ (a - o) = one-le-pow (a - o) 2 (omega arith) in rw p (grind arith)

abbrev least_order : ℕ → ℕ → ℕ
least_order a l = let o = if ltb a l then a else l in if ltb o max_order then o else max_order - 1

least_order_bounds :
    (a l : ℕ) → (least_order a l ≤ a) × (least_order a l ≤ l) × (least_order a l < max_order)
least_order_bounds a l = ground arith

-- The order that buddy_system_init chooses at page `p` of a range that ends at page `e` behind
-- it is below MAX_ORDER, and the block starts at a multiple of its size and ends within the
-- range.
pub block_order-Fits :
    (p e : ℕ)
    → p < e
    → (block_order (addr_of p) (addr_of e) < max_order)
      × Fits e (block_order (addr_of p) (addr_of e)) p
unfolding block_order
block_order-Fits p e lt =
    let el : addr_of p / page_size ≡ p + 2 ^ 19 = omega arith in
    let er : (addr_of e - addr_of p) / page_size ≡ e - p = omega arith in
    let a : ℕ = trailing_zeros 64 (p + 2 ^ 19) in
    let l : ℕ = highest_bit 64 (e - p) in
    let o : ℕ = least_order a l in
    let bounds = least_order_bounds a l in
    rw (el, er)
      (
        bounds.2,
        (
          mod_less_base p o (omega (arith, bounds.2))
              (mod_of_le (p + 2 ^ 19) a o bounds.0 (trailing_zeros-mod 64 (p + 2 ^ 19))),
          omega (arith, pow_mono o l bounds.1, highest_bit-le 64 (e - p) (omega arith)),
        ),
      )

-- After the pages from `from` up to `p` have been added.
pub record Filled (s : Area) (fl : Lists) (from p : ℕ) : Type 0 where
  pub valid : IsBuddy s fl []
  pub below : (j q : ℕ) → j < max_order → has q (fl j) ≡ true → q + 2 ^ j ≤ p
  pub free : (q : ℕ) → Covers fl q ↔ ((from ≤ q) × (q < p))

module _ {s : Area} {fl : Lists} (from p o : ℕ) (f : Filled s fl from p) (start : from ≤ p)
    (ho : o < max_order) (fit : Fits s.nr_pages o p) where
  abbrev pub added_page : Page
  added_page = record (s.pages p) { alloc = 0; is_head = 1; is_free = 1; order = o % 32 }

  abbrev pub added : Area
  added = record (write_page p added_page s) { links = list_add s.links (head o) (node p) (node p) }

  fresh : (j : ℕ) → j < max_order → has p (fl j) ≡ false
  fresh j hj = elim (Bool-cases (has p (fl j))) [
    | inl h ↦ absurd (omega (arith, f.below j p hj h, one-le-pow j 2))
    | inr h ↦ h
  ]

  pub Filled-added : Filled added (put_list fl o (p ∷ fl o)) from (p + 2 ^ o)
  Filled-added = record {
    valid =
        relist
          (attach (rewrite_page f.valid p added_page fresh) o p ho fresh (ground arith) fit
            λ j q hj h. inr (f.below j q hj h))
          [] λ i q hq out inside mark. ground arith;
    below = λ j q hj h. elim (new_or_old fl o p j q h) [
      | inl (ej, eq) ↦ rw (ej, eq) (omega arith)
      | inr old ↦ omega (arith, f.below j q hj old)
    ];
    free = λ q. (
      λ c. elim ((Covers-put fl o p ho q).0 c) [
        | inl i ↦ (omega (arith, i.0), i.1)
        | inr c' ↦ let r = (f.free q).0 c' in (r.0, omega (arith, r.1))
      ],
      λ r. (Covers-put fl o p ho q).1 (elim (Bool-cases (ltb q p)) [
        | inl old ↦ inr ((f.free q).1 (r.0, ltb→lt q p old))
        | inr new ↦ inl (ltb_false→le q p new, r.1)
      ]),
    );
  }

  add_block-runs : add_block p o s ≡ ok tt added
  unfolding add_block
  add_block-runs =
      let here : p < s.nr_pages = omega (arith, fit.1, one-le-pow o 2) in
      rw (load_page-ok p s here, store_page-ok p s added_page here)

-- The pages from `from` to `e` have been added.
pub record Filling (s : Area) (from e : ℕ) (t : Area) : Type 0 where
  pub lists : Lists
  pub filled : Filled t lists from e
  pub size : t.nr_pages ≡ s.nr_pages

pub init_loop-Filling :
    (fuel p e from : ℕ) {s : Area} {fl : Lists}
    → Filled s fl from p
    → from ≤ p
    → p ≤ e
    → e ≤ s.nr_pages
    → IsSmall s
    → e - p < fuel
    → Returns (λ _ t. Filling s from e t) (init_loop fuel (addr_of p) (addr_of e) s)
unfolding init_loop
init_loop-Filling zero p e from f lo hi room small enough = absurd (omega arith)
init_loop-Filling (suc fuel) p e from {s} {fl} f lo hi room small enough =
    elim (Bool-cases (ltb p e)) [
      | inl more ↦
          let lt : p < e = ltb→lt p e more in
          let chosen = block_order-Fits p e lt in
          let o : ℕ = block_order (addr_of p) (addr_of e) in
          let fit : Fits s.nr_pages o p = (chosen.1.0, omega (arith, chosen.1.1)) in
          let test : ltb (addr_of p) (addr_of e) ≡ true = lt→ltb _ _ (omega arith) in
          let next : (addr_of p + 2 ^ o * page_size) % 2 ^ 64 ≡ addr_of (p + 2 ^ o) =
            omega (arith, chosen.1.1, small) in
          let step = add_block-runs from p o f lo chosen.0 fit in
          rw (test, addr_to_pfn_lem p (omega (arith, small)), step, next)
            (Returns-mono
              (init_loop-Filling fuel (p + 2 ^ o) e from (Filled-added from p o f lo chosen.0 fit)
                (omega arith) (omega (arith, chosen.1.1)) room small
                (omega (arith, one-le-pow o 2)))
              λ _ t g. record { lists = g.lists; filled = g.filled; size = g.size })
      | inr done ↦
          let e' : e ≡ p = omega (arith, ltb_false→le p e done) in
          let test : ltb (addr_of p) (addr_of e) ≡ false = le→ltb_false _ _ (omega arith) in
          rw test (returns (record { lists = fl; filled = rw e' f; size = refl }))
    ]
