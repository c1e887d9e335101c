-- ===== src/Pmm/Invariant.antt =====
-- What the free lists of kernel/pmm.c mean, and how the elementary writes change it.
use pke.Base.{
  ℕ, ◌+◌, ◌%◌, ◌^◌, ◌≤◌, ◌<◌, ◌≡◌, ◌≢◌, ◌⊎◌, inl, inr, true, false, List, ◌∷◌, arith, has, Distinct,
  remove, has-remove_ne, remove-Distinct, ne_of_has, ◌∙◌, sym, has_of_remove, has-remove_self,
  ==_refl, Bool-cases, ◌==◌, if◌then◌else◌,
}
use native.Mathlib.Nat.{one-le-pow}
use pke.Pmm.Links.{max_order, head, node, list_add, list_del}
use pke.Pmm.State.{Page, Area, write_page}
use pke.Pmm.Rings.{Ring, list_add-Ring, list_add-Ring_ne, list_del-Ring, list_del-Ring_ne}

-- The free lists: for each order the first pages of its blocks, in the order of the list.
abbrev pub Lists : Type 0
Lists = ℕ → List ℕ

abbrev pub put_list : Lists → ℕ → List ℕ → Lists
put_list fl i xs j = if j == i then xs else fl j

-- The blocks of `p` (of order `i`) and of `q` (of order `j`) share no page.
abbrev pub Apart : ℕ → ℕ → ℕ → ℕ → Type 0
Apart i p j q = (p + 2 ^ i ≤ q) ⊎ (q + 2 ^ j ≤ p)

-- A descriptor that the merge loop takes for the first page of a free block of order `i`.
abbrev pub IsFreeHead : Page → ℕ → Type 0
IsFreeHead p i = (p.is_free ≡ 1) × (p.is_head ≡ 1) × (p.order ≡ i)

-- A block that starts at a multiple of its size and ends within the memory.
abbrev pub Fits : ℕ → ℕ → ℕ → Type 0
Fits nr i p = (p % 2 ^ i ≡ 0) × (p + 2 ^ i ≤ nr)

-- The lists hold disjoint aligned blocks, whose first pages carry the marks; and each page with
-- the marks, those in `skip` aside, is in its list.
pub record IsBuddy (s : Area) (fl : Lists) (skip : List ℕ) : Type 0 where
  pub rings : (i : ℕ) → i < max_order → Ring s.links i (fl i)
  pub distinct : (i : ℕ) → i < max_order → Distinct (fl i)
  pub marked : (i p : ℕ) → i < max_order → has p (fl i) ≡ true → IsFreeHead (s.pages p) i
  pub listed :
      (i p : ℕ)
      → p < s.nr_pages
      → has p skip ≡ false
      → IsFreeHead (s.pages p) i
      → (i < max_order) × (has p (fl i) ≡ true)
  pub fits : (i p : ℕ) → i < max_order → has p (fl i) ≡ true → Fits s.nr_pages i p
  pub apart :
      (i p j q : ℕ)
      → i < max_order
      → j < max_order
      → has p (fl i) ≡ true
      → has q (fl j) ≡ true
      → p ≢ q
      → Apart i p j q

-- A block of the longer lists is the new one or an old one.
pub new_or_old :
    (fl : Lists) (i x j p : ℕ)
    → has p (put_list fl i (x ∷ fl i) j) ≡ true
    → ((j ≡ i) × (p ≡ x)) ⊎ (has p (fl j) ≡ true)
new_or_old fl i x j p h = ground arith

pub Apart-sym : (i p j q : ℕ) → Apart i p j q → Apart j q i p
Apart-sym i p j q (inl h) = inr h
Apart-sym i p j q (inr h) = inl h

module _ {s : Area} {fl : Lists} {skip : List ℕ} (b : IsBuddy s fl skip) where
  -- A page is in one list at most.
  pub one_list :
      (i j p : ℕ)
      → i < max_order
      → j < max_order
      → i ≢ j
      → has p (fl i) ≡ true
      → has p (fl j) ≡ false
  one_list i j p hi hj ne h = elim (Bool-cases (has p (fl j))) [
    | inl h' ↦ absurd (ne (omega (arith, (b.marked i p hi h).2, (b.marked j p hj h').2)))
    | inr h' ↦ h'
  ]

  pub still_has :
      (i x j p : ℕ) → has p (put_list fl i (remove x (fl i)) j) ≡ true → has p (fl j) ≡ true
  still_has i x j p h = elim (Bool-cases (j == i)) [
    | inl e ↦
        let ej : j ≡ i = ground arith in rw ej (has_of_remove p x (fl i) (rw (ej, ==_refl i) at h))
    | inr e ↦ rw e at h
  ]

  -- Taking a block out of its list leaves the rest in order; its first page keeps its marks.
  pub detach :
      (i x : ℕ)
      → i < max_order
      → has x (fl i) ≡ true
      → IsBuddy
          (record s { links = list_del s.links (node x) })
          (put_list fl i (remove x (fl i)))
          (x ∷ skip)
  detach i x hi h = record {
    rings = λ j hj. elim (Bool-cases (j == i)) [
      | inl e ↦
          let ej : j ≡ i = ground arith in
          rw (ej, ==_refl i)
            (list_del-Ring s.links x i (fl i) hi h (b.distinct i hi) (b.rings i hi))
      | inr e ↦ rw e (
          list_del-Ring_ne s.links x i j (fl i) (fl j) hi hj (ground arith) h
            (λ z hz. one_list i j z hi hj (ground arith) hz) (b.rings i hi) (b.rings j hj))
    ];
    distinct = λ j hj. elim (Bool-cases (j == i)) [
      | inl e ↦
          let ej : j ≡ i = ground arith in
          rw (ej, ==_refl i) (remove-Distinct x (fl i) (b.distinct i hi))
      | inr e ↦ rw e (b.distinct j hj)
    ];
    marked = λ j p hj hp. b.marked j p hj (still_has i x j p hp);
    listed = λ j p hp out m. (
      (b.listed j p hp (ground arith) m).0,
      ground (arith, b.listed j p hp, has-remove_ne p x (fl i)),
    );
    fits = λ j p hj hp. b.fits j p hj (still_has i x j p hp);
    apart =
        λ j p k q hj hk hp hq. b.apart j p k q hj hk (still_has i x j p hp) (still_has i x k q hq);
  }

  -- The block that was taken out is in no list any more, and apart from those that are.
  pub detached_out :
      (i x j : ℕ)
      → i < max_order
      → j < max_order
      → has x (fl i) ≡ true
      → has x (put_list fl i (remove x (fl i)) j) ≡ false
  detached_out i x j hi hj h = elim (Bool-cases (j == i)) [
    | inl e ↦
        let ej : j ≡ i = ground arith in
        rw (ej, ==_refl i) (has-remove_self x (fl i) (b.distinct i hi))
    | inr e ↦ rw e (one_list i j x hi hj (ground arith) h)
  ]

  pub detached-Apart :
      (i x j p : ℕ)
      → i < max_order
      → j < max_order
      → has x (fl i) ≡ true
      → has p (put_list fl i (remove x (fl i)) j) ≡ true
      → Apart i x j p
  detached-Apart i x j p hi hj h hp =
      b.apart i x j p hi hj h (still_has i x j p hp)
        (λ e. ne_of_has p x _ hp (detached_out i x j hi hj h) (sym e))

  -- Putting a block in front of its list, if it is disjoint from all blocks that are there.
  pub attach :
      (i x : ℕ)
      → i < max_order
      → ((j : ℕ) → j < max_order → has x (fl j) ≡ false)
      → IsFreeHead (s.pages x) i
      → Fits s.nr_pages i x
      → ((j p : ℕ) → j < max_order → has p (fl j) ≡ true → Apart i x j p)
      → IsBuddy
          (record s { links = list_add s.links (head i) (node x) (node x) })
          (put_list fl i (x ∷ fl i))
          skip
  attach i x hi out mark fit disjoint = record {
    rings = λ j hj. elim (Bool-cases (j == i)) [
      | inl e ↦
          let ej : j ≡ i = ground arith in
          rw (ej, ==_refl i)
            (list_add-Ring s.links i x (fl i) hi (b.distinct i hi) (out i hi) (b.rings i hi))
      | inr e ↦ rw e (
          list_add-Ring_ne s.links i x j (fl i) (fl j) hi hj (ground arith) (out j hj)
            (λ z hz. one_list i j z hi hj (ground arith) hz) (b.rings i hi) (b.rings j hj))
    ];
    distinct = λ j hj. elim (Bool-cases (j == i)) [
      | inl e ↦ let ej : j ≡ i = ground arith in rw (ej, ==_refl i) (out i hi, b.distinct i hi)
      | inr e ↦ rw e (b.distinct j hj)
    ];
    marked = λ j p hj hp. ground (arith, b.marked j p hj);
    listed = λ j p hp skipped m.
        ((b.listed j p hp skipped m).0, ground (arith, b.listed j p hp skipped));
    fits = λ j p hj hp. ground (arith, b.fits j p hj);
    apart = λ j p k q hj hk hp hq ne. elim (new_or_old fl i x j p hp) [
      | inl (ej, ep) ↦ elim (new_or_old fl i x k q hq) [
        | inl (ek, eq) ↦ absurd (ne (ep ∙ sym eq))
        | inr old ↦ rw (ej, ep) (disjoint k q hk old)
      ]
      | inr old ↦ elim (new_or_old fl i x k q hq) [
        | inl (ek, eq) ↦ rw (ek, eq) (Apart-sym i x j p (disjoint j p hj old))
        | inr old' ↦ b.apart j p k q hj hk old old' ne
      ]
    ];
  }

  -- The descriptor of a page that starts no free block can be written.
  pub rewrite_page :
      (x : ℕ) (pg : Page)
      → ((j : ℕ) → j < max_order → has x (fl j) ≡ false)
      → IsBuddy (write_page x pg s) fl (x ∷ skip)
  rewrite_page x pg out = record {
    rings = b.rings;
    distinct = b.distinct;
    marked = λ j p hj hp. ground (arith, ne_of_has p x (fl j) hp (out j hj), b.marked j p hj hp);
    listed = λ j p hp skipped m. b.listed j p hp (ground arith) (ground arith);
    fits = b.fits;
    apart = b.apart;
  }

  -- Fewer pages are set aside, if those that come back carry no marks or are in their list.
  pub relist :
      (skip' : List ℕ)
      → ((i p : ℕ)
          → p < s.nr_pages
          → has p skip' ≡ false
          → has p skip ≡ true
          → IsFreeHead (s.pages p) i
          → (i < max_order) × (has p (fl i) ≡ true))
      → IsBuddy s fl skip'
  relist skip' back = record {
    rings = b.rings;
    distinct = b.distinct;
    marked = b.marked;
    listed = λ i p hp out m. elim (Bool-cases (has p skip)) [
      | inl inside ↦ back i p hp out inside m
      | inr outside ↦ b.listed i p hp outside m
    ];
    fits = b.fits;
    apart = b.apart;
  }

  -- A page inside a free block, its first page aside, starts no free block.
  pub inside_free :
      (i p q : ℕ)
      → i < max_order
      → has p (fl i) ≡ true
      → p < q
      → q < p + 2 ^ i
      → (j : ℕ) → j < max_order
      → has q (fl j) ≡ false
  inside_free i p q hi hp lo hi' j hj = elim (Bool-cases (has q (fl j))) [
    | inl h ↦ absurd (elim (b.apart i p j q hi hj hp h (omega arith)) [
      | inl e ↦ omega arith
      | inr e ↦ omega (arith, one-le-pow j 2)
    ])
    | inr h ↦ h
  ]
