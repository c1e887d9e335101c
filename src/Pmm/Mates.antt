-- ===== src/Pmm/Mates.antt =====
-- The buddy of a block, `pfn ^ (1 << order)`, and the block that the two make,
-- `pfn & ~(1 << order)`, as __buddy_merge_inner computes them.
use pke.Base.{
  ltb, ltb→lt, ltb_false→le, Bool-cases, ◌==◌, ℕ, suc, ◌+◌, ◌-◌, ◌*◌, ◌/◌, ◌%◌, ◌^◌, ◌≤◌, ◌<◌, ◌≡◌,
  inl, inr, bit_xor, bit_and, arith, ap, sym, ◌∙◌,
}
use pke.Base.Bits.{xor_bit, and_clear, pow-add}
use native.Mathlib.Nat.{one-le-pow, pow-suc, div-le_self}
use pke.Pmm.Blocks.{eq_mul_of_mod, mul_mod}
use pke.Pmm.Buddy.{clear_mask}

abbrev pub mate : ℕ → ℕ → ℕ
mate o p = bit_xor p (2 ^ o)

abbrev pub merged : ℕ → ℕ → ℕ
merged o p = bit_and p (clear_mask o)

-- The buddy of a block starts right behind it or right before it, and the merged block starts with
-- the lower of the two.
pub data Mates (o p : ℕ) : Type 0 where
  behind : mate o p ≡ p + 2 ^ o → merged o p ≡ p → p % 2 ^ suc o ≡ 0 → Mates o p
  before : mate o p + 2 ^ o ≡ p → merged o p ≡ mate o p → mate o p % 2 ^ suc o ≡ 0 → Mates o p

fits_mask : (o k : ℕ) → o ≤ 10 → k < 2 ^ 51 → k < 2 ^ suc (63 - o)
fits_mask o k h lt =
    let e : suc (63 - o) ≡ 51 + (13 - o) = omega arith in
    rw (e, pow-add 51 (13 - o)) (omega (arith, one-le-pow (13 - o) 2))

cleared : (o k : ℕ) → o ≤ 10 → k < 2 ^ 51 → bit_and (k * 2 ^ o) (clear_mask o) ≡ k / 2 * 2 * 2 ^ o
cleared o k h lt =
    let e : o + suc (63 - o) ≡ 64 = omega arith in
    rw e at (and_clear o (63 - o) k (fits_mask o k h lt))

pub Mates-aligned : (o p : ℕ) → o ≤ 10 → p < 2 ^ 51 → p % 2 ^ o ≡ 0 → Mates o p
Mates-aligned o p ho hp aligned = elim (Bool-cases (k % 2 == 0)) [
  | inl e ↦
      let even : k + 1 - 2 * (k % 2) ≡ k + 1 = ground arith in
      let low : k / 2 * 2 ≡ k = ground arith in
      behind (flip ∙ (ap (λ (t : ℕ). t * 2 ^ o) even ∙ omega (arith, ep)))
        (clear ∙ (ap (λ (t : ℕ). t * 2 ^ o) low ∙ sym ep))
        (aligned_up p (ep ∙ ap (λ (t : ℕ). t * 2 ^ o) (sym low)))
  | inr e ↦
      let odd : k + 1 - 2 * (k % 2) ≡ k / 2 * 2 = ground arith in
      let top : k ≡ k / 2 * 2 + 1 = ground arith in
      let lower : mate o p ≡ k / 2 * 2 * 2 ^ o = flip ∙ ap (λ (t : ℕ). t * 2 ^ o) odd in
      before (omega (arith, lower, ep, ap (λ (t : ℕ). t * 2 ^ o) top)) (clear ∙ sym lower)
        (aligned_up (mate o p) lower)
]
  where
    k : ℕ
    k = p / 2 ^ o

    ep : p ≡ k * 2 ^ o
    ep = eq_mul_of_mod p (2 ^ o) aligned

    small : k < 2 ^ 51
    small = omega (arith, div-le_self p (2 ^ o))

    flip : mate o p ≡ (k + 1 - 2 * (k % 2)) * 2 ^ o
    flip = ap (λ (t : ℕ). bit_xor t (2 ^ o)) ep ∙ xor_bit o k

    aligned_up : (t : ℕ) → t ≡ k / 2 * 2 * 2 ^ o → t % 2 ^ suc o ≡ 0
    aligned_up t e =
        let e' : t ≡ k / 2 * 2 ^ suc o =
          e ∙ omega (arith, ap (λ (u : ℕ). k / 2 * u) (pow-suc 2 o)) in
        rw e' (mul_mod (k / 2) (2 ^ suc o))

    clear : merged o p ≡ k / 2 * 2 * 2 ^ o
    clear = ap (λ (t : ℕ). bit_and t (clear_mask o)) ep ∙ cleared o k ho small

next_multiple : (h m q : ℕ) → h * q < m * q → h * q + q ≤ m * q
next_multiple h m q lt = elim (Bool-cases (ltb h m)) [
  | inl less ↦ let le : suc h ≤ m = ltb→lt h m less in grind arith
  | inr more ↦ let ge : m ≤ h = ltb_false→le h m more in absurd (grind arith)
]

-- A memory of whole blocks of the highest order has room for the buddy of every smaller block.
pub mate_room :
    (nr o p : ℕ)
    → nr % 2 ^ 10 ≡ 0
    → o < 10
    → p % 2 ^ suc o ≡ 0
    → p + 2 ^ o ≤ nr
    → p + 2 ^ suc o ≤ nr
mate_room nr o p whole ho aligned fits =
    let h : ℕ = p / 2 ^ suc o in
    let ep : p ≡ h * 2 ^ suc o = eq_mul_of_mod p (2 ^ suc o) aligned in
    let k : ℕ = nr / 2 ^ 10 in
    let m : ℕ = k * 2 ^ (9 - o) in
    let ten : 2 ^ 10 ≡ 2 ^ suc o * 2 ^ (9 - o) =
      let e : 10 ≡ suc o + (9 - o) = omega arith in
      ap (λ (t : ℕ). 2 ^ t) e ∙ pow-add (suc o) (9 - o) in
    let enr : nr ≡ m * 2 ^ suc o =
      eq_mul_of_mod nr (2 ^ 10) whole ∙ (ap (λ (t : ℕ). k * t) ten ∙ omega arith) in
    let next = next_multiple h m (2 ^ suc o) (omega (arith, one-le-pow o 2)) in omega arith
