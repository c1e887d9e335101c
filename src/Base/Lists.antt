-- ===== src/Base/Lists.antt =====
-- Lists measured and indexed by native numbers, and membership of a number as a test.
use Prim.Native.Nat.{ℕ, zero, suc, ◌+◌, ◌<◌, ◌≤◌}
use mathlib.Core.Path.{◌≡◌, refl, ap}
use mathlib.Core.Logic.{◌≢◌, ◌⊎◌, inl, inr}
use mathlib.Core.Bool.{Bool, true, false, ◌||◌}
use mathlib.Core.List.{List, [], ◌∷◌, ◌++◌}
use mathlib.Core.Option.{Option, none, some}
use native.Mathlib.Omega.{arith}
use pke.Base.Tests.{◌==◌, ==_refl, Bool-cases, if◌then◌else◌}

module _ {ℓ} {A : Type ℓ} where
  abbrev pub length : List A → ℕ
  length [] = 0
  length (x ∷ xs) = suc (length xs)

  abbrev pub get_elem? : List A → ℕ → Option A
  get_elem? [] i = none
  get_elem? (x ∷ xs) zero = some x
  get_elem? (x ∷ xs) (suc i) = get_elem? xs i

  -- A write out of bounds changes nothing.
  abbrev pub set : List A → ℕ → A → List A
  set [] i v = []
  set (x ∷ xs) zero v = v ∷ xs
  set (x ∷ xs) (suc i) v = x ∷ set xs i v

  abbrev pub replicate : ℕ → A → List A
  replicate zero a = []
  replicate (suc n) a = a ∷ replicate n a

  pub length-append : (xs ys : List A) → length (xs ++ ys) ≡ length xs + length ys
  length-append [] ys = omega arith
  length-append (x ∷ xs) ys = omega (arith, length-append xs ys)

module _ {ℓ} {A : Type ℓ} where
  pub length-set : (xs : List A) (i : ℕ) (v : A) → length (set xs i v) ≡ length xs
  length-set [] i v = refl
  length-set (x ∷ xs) zero v = refl
  length-set (x ∷ xs) (suc i) v = ap suc (length-set xs i v)

  pub get_elem?-set_self :
      (xs : List A) (i : ℕ) (v : A) → i < length xs → get_elem? (set xs i v) i ≡ some v
  get_elem?-set_self [] i v h = elim h [ ]
  get_elem?-set_self (x ∷ xs) zero v h = refl
  get_elem?-set_self (x ∷ xs) (suc i) v h = get_elem?-set_self xs i v (omega arith)

  pub get_elem?-set_ne :
      (xs : List A) {i j : ℕ} (v : A) → i ≢ j → get_elem? (set xs i v) j ≡ get_elem? xs j
  get_elem?-set_ne [] v h = refl
  get_elem?-set_ne (x ∷ xs) {i = zero} {j = zero} v h = absurd (h refl)
  get_elem?-set_ne (x ∷ xs) {i = zero} {j = suc j} v h = refl
  get_elem?-set_ne (x ∷ xs) {i = suc i} {j = zero} v h = refl
  get_elem?-set_ne (x ∷ xs) {i = suc i} {j = suc j} v h = get_elem?-set_ne xs v (λ e. h (ap suc e))

abbrev pub has : ℕ → List ℕ → Bool
has a [] = false
has a (x ∷ xs) = (a == x) || has a xs

-- No number occurs twice.
abbrev pub Distinct : List ℕ → Type 0
Distinct [] = Unit {0}
Distinct (x ∷ xs) = (has x xs ≡ false) × Distinct xs

-- The list without the first occurrence of a number.
unfoldable pub remove : ℕ → List ℕ → List ℕ
remove a [] = []
remove a (x ∷ xs) = if a == x then xs else x ∷ remove a xs

pub has-append : (a : ℕ) (xs ys : List ℕ) → has a (xs ++ ys) ≡ (has a xs || has a ys)
has-append a [] ys = refl
has-append a (x ∷ xs) ys = ground (arith, has-append a xs ys)

pub has-remove_ne : (b a : ℕ) (xs : List ℕ) → b ≢ a → has b (remove a xs) ≡ has b xs
unfolding remove
has-remove_ne b a [] h = refl
has-remove_ne b a (x ∷ xs) h = ground (arith, has-remove_ne b a xs h)

pub has-remove_self : (a : ℕ) (xs : List ℕ) → Distinct xs → has a (remove a xs) ≡ false
unfolding remove
has-remove_self a [] d = refl
has-remove_self a (x ∷ xs) d = ground (arith, has-remove_self a xs d.1)

pub remove-Distinct : (a : ℕ) (xs : List ℕ) → Distinct xs → Distinct (remove a xs)
unfolding remove
remove-Distinct a [] d = tt
remove-Distinct a (x ∷ xs) d = ground (arith, remove-Distinct a xs d.1, has-remove_ne x a xs)

pub ne_of_has : (a b : ℕ) (xs : List ℕ) → has a xs ≡ true → has b xs ≡ false → a ≢ b
ne_of_has a b xs p q e = let q' : has a xs ≡ false = rw e q in cc

pub has_of_remove : (b a : ℕ) (xs : List ℕ) → has b (remove a xs) ≡ true → has b xs ≡ true
unfolding remove
has_of_remove b a [] h = h
has_of_remove b a (x ∷ xs) h = ground (arith, has_of_remove b a xs)

pub List-cases {ℓ} :
    {A : Type ℓ} (xs : List A) → (xs ≡ []) ⊎ ((y : A) × (ys : List A) × (xs ≡ y ∷ ys))
List-cases [] = inl refl
List-cases (x ∷ xs) = inr (x, xs, refl)

pub append-Distinct :
    (a : ℕ) (xs : List ℕ) → Distinct xs → has a xs ≡ false → Distinct (xs ++ (a ∷ []))
append-Distinct a [] d out = (refl, tt)
append-Distinct a (x ∷ xs) d out =
    ground (arith, has-append x xs (a ∷ []), append-Distinct a xs d.1)

length-remove : (a : ℕ) (xs : List ℕ) → has a xs ≡ true → length xs ≡ suc (length (remove a xs))
unfolding remove
length-remove a [] h = cc
length-remove a (x ∷ xs) h = ground (arith, length-remove a xs)

-- Distinct numbers below `n` are at most `n`.
pub length-le_of_Distinct :
    (n : ℕ) (xs : List ℕ) → Distinct xs → ((a : ℕ) → has a xs ≡ true → a < n) → length xs ≤ n
length-le_of_Distinct zero [] d below = omega arith
length-le_of_Distinct zero (x ∷ xs) d below = absurd (omega (arith, below x (rw (==_refl x) refl)))
length-le_of_Distinct (suc n) xs d below = elim (Bool-cases (has n xs)) [
  | inl there ↦
      let rest = length-le_of_Distinct n (remove n xs) (remove-Distinct n xs d) λ a h.
        let ne : a ≢ n =
          λ e. let out : has a (remove n xs) ≡ false = rw e (has-remove_self n xs d) in cc in
        omega (arith, below a (has_of_remove a n xs h), ne) in
      omega (arith, length-remove n xs there, rest)
  | inr missing ↦
      let rest = length-le_of_Distinct n xs d λ a h.
        let ne : a ≢ n = λ e. let out : has a xs ≡ false = rw e missing in cc in
        omega (arith, below a h, ne) in
      omega (arith, rest)
]
