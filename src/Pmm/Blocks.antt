-- ===== src/Pmm/Blocks.antt =====
-- Blocks of 2 ^ i pages: their halves, and the pages that the free lists cover.
use pke.Base.{
  ℕ, suc, ◌+◌, ◌*◌, ◌/◌, ◌%◌, ◌^◌, ◌≤◌, ◌<◌, ◌≡◌, ◌⊎◌, ◌↔◌, inl, inr, true, ◌∷◌, arith, has, remove,
  has-remove_ne, has_of_remove, Bool-cases, ◌==◌, ap,
}
use native.Mathlib.Nat.{pow-suc, div-add-mod, mul-mod_left}
use pke.Pmm.Links.{max_order}
use pke.Pmm.Invariant.{Lists, put_list, Fits}

pub eq_mul_of_mod : (p d : ℕ) → p % d ≡ 0 → p ≡ p / d * d
eq_mul_of_mod p d h = omega (arith, div-add-mod p d)

pub mul_mod : (k d : ℕ) → k * d % d ≡ 0
mul_mod k d = mul-mod_left k d

-- The two halves of a block are blocks of the order below.
pub Fits-halves : (nr o p : ℕ) → Fits nr (suc o) p → Fits nr o p × Fits nr o (p + 2 ^ o)
Fits-halves nr o p (a, e) =
    let k : ℕ = p / 2 ^ suc o in
    let ep : p ≡ 2 * k * 2 ^ o =
      omega (arith, eq_mul_of_mod p (2 ^ suc o) a, ap (λ (t : ℕ). k * t) (pow-suc 2 o)) in
    let eq : p + 2 ^ o ≡ (2 * k + 1) * 2 ^ o = omega arith in
    (
      (rw ep (mul_mod (2 * k) (2 ^ o)), omega (arith, pow-suc 2 o)),
      (rw eq (mul_mod (2 * k + 1) (2 ^ o)), omega (arith, pow-suc 2 o)),
    )

-- The block of order `i` at `p` holds the page `q`.
abbrev pub InBlock : ℕ → ℕ → ℕ → Type 0
InBlock i p q = (p ≤ q) × (q < p + 2 ^ i)

-- The page lies in a block of the lists: it is free.
abbrev pub Covers : Lists → ℕ → Type 0
Covers fl q = (i : ℕ) × (p : ℕ) × (i < max_order) × (has p (fl i) ≡ true) × InBlock i p q

module _ (fl : Lists) (i x : ℕ) (hi : i < max_order) where
  pub Covers-put : (q : ℕ) → Covers (put_list fl i (x ∷ fl i)) q ↔ (InBlock i x q ⊎ Covers fl q)
  Covers-put q = (
    λ (j, p, hj, h, within). elim (Bool-cases (j == i)) [
      | inl e ↦ elim (Bool-cases (p == x)) [
        | inl e' ↦ inl (ground arith)
        | inr e' ↦ inr (j, p, hj, ground arith, within)
      ]
      | inr e ↦ inr (j, p, hj, ground arith, within)
    ],
    λ c. elim c [
      | inl within ↦ (i, x, hi, ground arith, within)
      | inr (j, p, hj, h, within) ↦ (j, p, hj, ground arith, within)
    ],
  )

  pub Covers-take :
      (q : ℕ)
      → has x (fl i) ≡ true
      → Covers fl q ↔ (InBlock i x q ⊎ Covers (put_list fl i (remove x (fl i))) q)
  Covers-take q hx = (
    λ (j, p, hj, h, within). elim (Bool-cases (j == i)) [
      | inl e ↦ elim (Bool-cases (p == x)) [
        | inl e' ↦ inl (ground arith)
        | inr e' ↦ inr (j, p, hj, ground (arith, has-remove_ne p x (fl i)), within)
      ]
      | inr e ↦ inr (j, p, hj, ground arith, within)
    ],
    λ c. elim c [
      | inl within ↦ (i, x, hi, hx, within)
      | inr (j, p, hj, h, within) ↦ (j, p, hj, ground (arith, has_of_remove p x (fl i)), within)
    ],
  )
