-- ===== src/Base/Bits.antt =====
-- The bit operations of C at variable operands: one equation for the lowest digit, and from it how
-- each operation acts on a high and a low field of a word.
use Prim.Native.Nat.{
  ℕ, zero, suc, ◌+◌, ◌-◌, ◌*◌, ◌/◌, ◌%◌, ◌^◌, ◌≤◌, ◌<◌, min, max, bit_and, bit_or, bit_xor, digits,
  bitwise, differ, bit_and-bitwise, bit_or-bitwise, bit_xor-bitwise,
}
use mathlib.Core.Path.{◌≡◌, refl, ap, ap₂}
use native.Mathlib.Nat.{le_refl, pow-suc, one-le-pow, zero-add, suc-add}
use native.Mathlib.Omega.{arith}

-- The native operations are defined by a recursion on digits with fuel; more fuel changes nothing.
module _ (z : ℕ → ℕ) (f : ℕ → ℕ → ℕ) where
  digits_enough : (n m a b : ℕ) → a ≤ n → a ≤ m → digits z f n a b ≡ digits z f m a b
  digits_enough zero zero a b p q = refl
  digits_enough zero (suc m) zero b p q = refl
  digits_enough zero (suc m) (suc a) b p q = absurd (omega arith)
  digits_enough (suc n) zero zero b p q = refl
  digits_enough (suc n) zero (suc a) b p q = absurd (omega arith)
  digits_enough (suc n) (suc m) zero b p q = refl
  digits_enough (suc n) (suc m) (suc a) b p q =
      rw (digits_enough n m (suc a / 2) (b / 2) (omega arith) (omega arith))

  lowest_digit :
      (a b : ℕ)
      → bitwise z f (suc a) b ≡ bitwise z f (suc a / 2) (b / 2) * 2 + f (suc a % 2) (b % 2)
  lowest_digit a b =
      omega (arith, digits_enough a (suc a / 2) (suc a / 2) (b / 2) (omega arith) (le_refl _))

pub or_step : (a b : ℕ) → bit_or a b ≡ bit_or (a / 2) (b / 2) * 2 + max (a % 2) (b % 2)
or_step zero b = simp bit_or-bitwise (omega arith)
or_step (suc a) b = simp bit_or-bitwise (lowest_digit (λ y. y) max a b)

pub and_step : (a b : ℕ) → bit_and a b ≡ bit_and (a / 2) (b / 2) * 2 + min (a % 2) (b % 2)
and_step zero b = simp bit_and-bitwise (omega arith)
and_step (suc a) b = simp bit_and-bitwise (lowest_digit (λ y. 0) min a b)

differ-mod : (x y : ℕ) → x < 2 → y < 2 → differ x y ≡ (x + y) % 2
differ-mod zero y hx hy = omega arith
differ-mod (suc zero) zero hx hy = omega arith
differ-mod (suc zero) (suc zero) hx hy = omega arith
differ-mod (suc zero) (suc (suc y)) hx hy = absurd (omega arith)
differ-mod (suc (suc x)) y hx hy = absurd (omega arith)

xor_digits : (a b : ℕ) → bit_xor a b ≡ bit_xor (a / 2) (b / 2) * 2 + differ (a % 2) (b % 2)
xor_digits zero b = simp bit_xor-bitwise (omega arith)
xor_digits (suc a) b = simp bit_xor-bitwise (lowest_digit (λ y. y) differ a b)

pub xor_step : (a b : ℕ) → bit_xor a b ≡ bit_xor (a / 2) (b / 2) * 2 + (a + b) % 2
xor_step a b = omega (arith, xor_digits a b, differ-mod (a % 2) (b % 2) (omega arith) (omega arith))

pub or_zero : (a k : ℕ) → a ≤ k → bit_or a 0 ≡ a
or_zero zero k h = refl
or_zero (suc a) zero h = absurd (omega arith)
or_zero (suc a) (suc k) h = omega (arith, or_step (suc a) 0, or_zero (suc a / 2) k (omega arith))

double : (q k : ℕ) → q * 2 ^ suc k ≡ 2 * (q * 2 ^ k)
double q k = omega (arith, ap (λ (t : ℕ). q * t) (pow-suc 2 k))

-- A word is a high field above `k` low bits; each operation acts on the two fields apart.
pub and_fields :
    (k q m r s : ℕ)
    → r < 2 ^ k
    → s < 2 ^ k
    → bit_and (q * 2 ^ k + r) (m * 2 ^ k + s) ≡ bit_and q m * 2 ^ k + bit_and r s
and_fields zero q m r s hr hs =
    let er : r ≡ 0 = omega arith in
    let es : s ≡ 0 = omega arith in
    let eq : q * 2 ^ 0 + 0 ≡ q = omega arith in
    let em : m * 2 ^ 0 + 0 ≡ m = omega arith in rw (er, es, eq, em) (omega arith)
and_fields (suc k) q m r s hr hs = ground (
  arith,
  and_step (q * 2 ^ suc k + r) (m * 2 ^ suc k + s),
  and_step r s,
  double q k,
  double m k,
  double (bit_and q m) k,
  pow-suc 2 k,
  and_fields k q m (r / 2) (s / 2),
)

pub or_fields :
    (k q m r s : ℕ)
    → r < 2 ^ k
    → s < 2 ^ k
    → bit_or (q * 2 ^ k + r) (m * 2 ^ k + s) ≡ bit_or q m * 2 ^ k + bit_or r s
or_fields zero q m r s hr hs =
    let er : r ≡ 0 = omega arith in
    let es : s ≡ 0 = omega arith in
    let eq : q * 2 ^ 0 + 0 ≡ q = omega arith in
    let em : m * 2 ^ 0 + 0 ≡ m = omega arith in rw (er, es, eq, em) (omega arith)
or_fields (suc k) q m r s hr hs = ground (
  arith,
  or_step (q * 2 ^ suc k + r) (m * 2 ^ suc k + s),
  or_step r s,
  double q k,
  double m k,
  double (bit_or q m) k,
  pow-suc 2 k,
  or_fields k q m (r / 2) (s / 2),
)

pub xor_fields :
    (k q m r s : ℕ)
    → r < 2 ^ k
    → s < 2 ^ k
    → bit_xor (q * 2 ^ k + r) (m * 2 ^ k + s) ≡ bit_xor q m * 2 ^ k + bit_xor r s
xor_fields zero q m r s hr hs =
    let er : r ≡ 0 = omega arith in
    let es : s ≡ 0 = omega arith in
    let eq : q * 2 ^ 0 + 0 ≡ q = omega arith in
    let em : m * 2 ^ 0 + 0 ≡ m = omega arith in rw (er, es, eq, em) (omega arith)
xor_fields (suc k) q m r s hr hs = ground (
  arith,
  xor_step (q * 2 ^ suc k + r) (m * 2 ^ suc k + s),
  xor_step r s,
  double q k,
  double m k,
  double (bit_xor q m) k,
  pow-suc 2 k,
  xor_fields k q m (r / 2) (s / 2),
)

-- `x & (2 ^ k - 1)`.
ones-and : (k : ℕ) (a : ℕ) → a < 2 ^ k → bit_and a (2 ^ k - 1) ≡ a
ones-and zero a h = let e : a ≡ 0 = omega arith in rw e refl
ones-and (suc k) a h =
    ground (arith, and_step a (2 ^ suc k - 1), pow-suc 2 k, one-le-pow k 2, ones-and k (a / 2))

and_zero : (k a : ℕ) → a ≤ k → bit_and a 0 ≡ 0
and_zero zero a h = let e : a ≡ 0 = omega arith in rw e refl
and_zero (suc k) a h = ground (arith, and_step a 0, and_zero k (a / 2))

pub and_mask : (k a : ℕ) → bit_and a (2 ^ k - 1) ≡ a % 2 ^ k
and_mask k a = ground (
  arith,
  one-le-pow k 2,
  and_fields k (a / 2 ^ k) 0 (a % 2 ^ k) (2 ^ k - 1),
  ones-and k (a % 2 ^ k),
  and_zero (a / 2 ^ k) (a / 2 ^ k),
)

zero-or : (r : ℕ) → bit_or 0 r ≡ r
zero-or r = simp bit_or-bitwise refl

-- `a | b` where `b` lies in the `k` low bits and `a` above them.
pub or_disjoint : (k q r : ℕ) → r < 2 ^ k → bit_or (q * 2 ^ k) r ≡ q * 2 ^ k + r
or_disjoint k q r h =
    let eq : q * 2 ^ k ≡ q * 2 ^ k + 0 = omega arith in
    let er : bit_or (q * 2 ^ k) r ≡ bit_or (q * 2 ^ k + 0) (0 * 2 ^ k + r) =
      ap₂ bit_or eq (omega arith) in
    omega (
      arith,
      er,
      one-le-pow k 2,
      or_fields k q 0 0 r (omega (arith, one-le-pow k 2)) h,
      ap (λ (t : ℕ). t * 2 ^ k) (or_zero q q (le_refl q)),
      zero-or r,
    )

pub or-lt : (k a b : ℕ) → a < 2 ^ k → b < 2 ^ k → bit_or a b < 2 ^ k
or-lt zero a b ha hb =
    let ea : a ≡ 0 = omega arith in let eb : b ≡ 0 = omega arith in rw (ea, eb) (omega arith)
or-lt (suc k) a b ha hb = ground (arith, or_step a b, pow-suc 2 k, or-lt k (a / 2) (b / 2))

-- `x & ~(2 ^ k - 1)` on words of `k + w` bits rounds down to a multiple of `2 ^ k`.
pub and_high : (k w a : ℕ) → a / 2 ^ k < 2 ^ w → bit_and a ((2 ^ w - 1) * 2 ^ k) ≡ a / 2 ^ k * 2 ^ k
and_high k w a h = ground (
  arith,
  one-le-pow k 2,
  and_fields k (a / 2 ^ k) (2 ^ w - 1) (a % 2 ^ k) 0,
  ones-and w (a / 2 ^ k),
  and_zero (a % 2 ^ k) (a % 2 ^ k),
)

xor_zero : (k a : ℕ) → a ≤ k → bit_xor a 0 ≡ a
xor_zero zero a h = let e : a ≡ 0 = omega arith in rw e refl
xor_zero (suc k) a h = ground (arith, xor_step a 0, xor_zero k (a / 2))

xor_one : (q : ℕ) → bit_xor q 1 ≡ q + 1 - 2 * (q % 2)
xor_one q = ground (arith, xor_step q 1, xor_zero (q / 2) (q / 2))

-- `x ^ (1 << k)` for a multiple `q * 2 ^ k` of the bit flips the parity of `q`.
pub xor_bit : (k q : ℕ) → bit_xor (q * 2 ^ k) (2 ^ k) ≡ (q + 1 - 2 * (q % 2)) * 2 ^ k
xor_bit k q =
    let eq : q * 2 ^ k ≡ q * 2 ^ k + 0 = omega arith in
    let er : bit_xor (q * 2 ^ k) (2 ^ k) ≡ bit_xor (q * 2 ^ k + 0) (1 * 2 ^ k + 0) =
      ap₂ bit_xor eq (omega arith) in
    omega (
      arith,
      er,
      one-le-pow k 2,
      xor_fields k q 1 0 0 (omega (arith, one-le-pow k 2)) (omega (arith, one-le-pow k 2)),
      ap (λ (t : ℕ). t * 2 ^ k) (xor_one q),
    )

pub pow-add : (a b : ℕ) → 2 ^ (a + b) ≡ 2 ^ a * 2 ^ b
pow-add zero b = rw zero-add (omega arith)
pow-add (suc a) b =
    rw suc-add
      (omega (arith, pow-suc 2 (a + b), ap (λ (t : ℕ). t * 2 ^ b) (pow-suc 2 a), pow-add a b))

mask_fields : (p q : ℕ) → 1 ≤ p → 2 ≤ q → p * q - 1 - p ≡ (q - 2) * p + (p - 1)
mask_fields p q hp hq =
    let e : q ≡ q - 2 + 2 = omega arith in omega (arith, ap (λ (t : ℕ). p * t) e)

-- `x & ~(1 << k)` for a multiple `q * 2 ^ k` of the bit clears the lowest bit of `q`.
pub and_clear :
    (k v q : ℕ)
    → q < 2 ^ suc v
    → bit_and (q * 2 ^ k) (2 ^ (k + suc v) - 1 - 2 ^ k) ≡ q / 2 * 2 * 2 ^ k
and_clear k v q h =
    let eq : q * 2 ^ k ≡ q * 2 ^ k + 0 = omega arith in
    let mask : 2 ^ (k + suc v) - 1 - 2 ^ k ≡ (2 ^ suc v - 2) * 2 ^ k + (2 ^ k - 1) = omega (
      arith,
      pow-add k (suc v),
      mask_fields (2 ^ k) (2 ^ suc v) (one-le-pow k 2 (omega arith))
          (omega (arith, pow-suc 2 v, one-le-pow v 2)),
    ) in
    let half : 2 ^ suc v - 2 ≡ (2 ^ v - 1) * 2 ^ 1 = omega (arith, pow-suc 2 v) in
    let er : bit_and (q * 2 ^ k) (2 ^ (k + suc v) - 1 - 2 ^ k)
        ≡ bit_and (q * 2 ^ k + 0) ((2 ^ suc v - 2) * 2 ^ k + (2 ^ k - 1)) =
      ap₂ bit_and eq mask in
    let cut : bit_and q (2 ^ suc v - 2) ≡ q / 2 * 2 =
      rw half (and_high 1 v q (omega (arith, pow-suc 2 v))) in
    omega (
      arith,
      er,
      one-le-pow k 2,
      and_fields k q (2 ^ suc v - 2) 0 (2 ^ k - 1) (omega (arith, one-le-pow k 2))
          (omega (arith, one-le-pow k 2)),
      ap (λ (t : ℕ). t * 2 ^ k) cut,
      and_mask k 0,
    )
