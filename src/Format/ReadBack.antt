-- ===== src/Format/ReadBack.antt =====
-- atol reads back what vsnprintf prints for `%ld`.
use mathlib.Core.List.{append-nil}
use pke.Base.{
  ne→==_false, ℕ, zero, suc, ◌+◌, ◌-◌, ◌*◌, ◌/◌, ◌%◌, ◌^◌, ◌<◌, ◌≤◌, ◌≡◌, ◌≢◌, inl, inr, refl, ap,
  ◌∙◌, false, ◌==◌, ltb, arith, some, List, [], ◌∷◌, ◌++◌, length, length-append, Bool-cases,
}
use native.Mathlib.Nat.{pow-suc}
use pke.Strings.Bytes.{Bytes, skip_spaces, digits_loop, atol}
use pke.Format.Printer.{vsnprintf, as_long, conversion}
use pke.Format.Spec.{number, formatted, piece, decimal_text, signed_text}
use pke.Format.Digits.{nth}
use pke.Format.Convert.{StringAt}
use pke.Format.Truncation.{truncated, vsnprintf-truncated}

-- The value of decimal digits behind the value `res`.
abbrev value : ℕ → List ℕ → ℕ
value res [] = res
value res (b ∷ bs) = value (res * 10 + (b - 48)) bs

abbrev Digits : List ℕ → Type 0
Digits [] = Unit {0}
Digits (b ∷ bs) = (48 ≤ b) × (b < 58) × Digits bs

value-snoc : (res b : ℕ) (bs : List ℕ) → value res (bs ++ (b ∷ [])) ≡ value res bs * 10 + (b - 48)
value-snoc res b [] = refl
value-snoc res b (x ∷ bs) = value-snoc (res * 10 + (x - 48)) b bs

snoc-Digits : (b : ℕ) (bs : List ℕ) → Digits bs → 48 ≤ b → b < 58 → Digits (bs ++ (b ∷ []))
snoc-Digits b [] d lo hi = (lo, hi, tt)
snoc-Digits b (x ∷ bs) d lo hi = (d.0, d.1, snoc-Digits b bs d.2 lo hi)

decimal_text-Digits : (k num : ℕ) → Digits (decimal_text k num)
unfolding decimal_text
decimal_text-Digits zero num = (omega arith, omega arith, tt)
decimal_text-Digits (suc k) num = elim (Bool-cases (num / 10 == 0)) [
  | inl last ↦ rw last (omega arith, omega arith, tt)
  | inr more ↦ rw more (
      snoc-Digits (48 + num % 10) (decimal_text k (num / 10)) (decimal_text-Digits k (num / 10))
        (omega arith) (omega arith))
]

value-decimal_text : (k num : ℕ) → num < 10 ^ suc k → value 0 (decimal_text k num) ≡ num
unfolding decimal_text
value-decimal_text zero num h = omega (arith, h)
value-decimal_text (suc k) num h = elim (Bool-cases (num / 10 == 0)) [
  | inl last ↦ rw last (ground arith)
  | inr more ↦ rw more (
      value-snoc 0 (48 + num % 10) (decimal_text k (num / 10))
      ∙ omega (arith, value-decimal_text k (num / 10) (omega (arith, h, pow-suc 10 (suc k)))))
]

length-decimal_text : (k num : ℕ) → length (decimal_text k num) ≤ suc k
unfolding decimal_text
length-decimal_text zero num = omega arith
length-decimal_text (suc k) num = elim (Bool-cases (num / 10 == 0)) [
  | inl last ↦ rw last (omega arith)
  | inr more ↦ rw more (
      omega (
        arith,
        length-append (decimal_text k (num / 10)) ((48 + num % 10) ∷ []),
        length-decimal_text k (num / 10),
      ))
]

-- A string anywhere in memory.
abbrev pub TextAt : Bytes → ℕ → List ℕ → Type 0
TextAt m p [] = m p ≡ 0
TextAt m p (b ∷ bs) = (m p ≡ b) × TextAt m (p + 1) bs

digits_loop-value :
    (fuel p res : ℕ) (bs : List ℕ) (m : Bytes)
    → TextAt m p bs
    → Digits bs
    → length bs < fuel
    → digits_loop fuel p (res % 2 ^ 64) m ≡ some (value res bs % 2 ^ 64)
unfolding digits_loop
digits_loop-value zero p res bs m at d enough = absurd (omega arith)
digits_loop-value (suc fuel) p res [] m at d enough = rw at refl
digits_loop-value (suc fuel) p res (b ∷ bs) m (here, at) d enough =
    let test : (b == 0) ≡ false = (let lo = d.0 in ground arith) in
    let e : (res % 2 ^ 64 * 10 + b + 2 ^ 64 - 48) % 2 ^ 64 ≡ (res * 10 + (b - 48)) % 2 ^ 64 =
      omega (arith, d.0) in
    rw (here, test, e)
      (digits_loop-value fuel (p + 1) (res * 10 + (b - 48)) bs m at d.2 (omega (arith, enough)))

skip_spaces-none : (fuel p : ℕ) (m : Bytes) → m p ≢ 32 → skip_spaces (suc fuel) p m ≡ some p
unfolding skip_spaces
skip_spaces-none fuel p m h =
    let test : (m p == 32) ≡ false = ground arith in rw (skip_spaces, test) refl

atol-natural :
    (fuel p num : ℕ) (m : Bytes)
    → TextAt m p (decimal_text 20 num)
    → num < 2 ^ 64
    → length (decimal_text 20 num) < suc fuel
    → (m p ≢ 32) × (m p ≢ 45) × (m p ≢ 43)
    → atol (suc fuel) p m ≡ some num
unfolding atol
atol-natural fuel p num m at small enough plain =
    let minus : (m p == 45) ≡ false = (let h = plain.1 in ground arith) in
    let plus : (m p == 43) ≡ false = (let h = plain.2 in ground arith) in
    let run =
      digits_loop-value (suc fuel) p 0 (decimal_text 20 num) m at (decimal_text-Digits 20 num)
        enough in
    let e : value 0 (decimal_text 20 num) % 2 ^ 64 ≡ num =
      omega (arith, value-decimal_text 20 num (omega (arith, small))) in
    rw (atol, skip_spaces-none fuel p m plain.0, minus, plus) (run ∙ ap some e)

-- The first byte of decimal digits, or of nothing.
no_sign :
    (bs : List ℕ) (m : Bytes) (p : ℕ)
    → TextAt m p bs
    → Digits bs
    → (m p ≢ 32) × (m p ≢ 45) × (m p ≢ 43)
no_sign [] m p at d = (
  λ e. absurd (omega (arith, e, at)),
  λ e. absurd (omega (arith, e, at)),
  λ e. absurd (omega (arith, e, at)),
)
no_sign (b ∷ bs) m p (here, at) d = (
  λ e. absurd (omega (arith, e, here, d.0)),
  λ e. absurd (omega (arith, e, here, d.0)),
  λ e. absurd (omega (arith, e, here, d.0)),
)

atol-negative :
    (fuel p num : ℕ) (m : Bytes)
    → TextAt m p (45 ∷ decimal_text 20 (2 ^ 64 - num))
    → 2 ^ 63 < num
    → num < 2 ^ 64
    → length (decimal_text 20 (2 ^ 64 - num)) < suc fuel
    → atol (suc fuel) p m ≡ some num
unfolding atol
atol-negative fuel p num m (minus, at) low small enough =
    let abs : ℕ = 2 ^ 64 - num in
    let run =
      digits_loop-value (suc fuel) (p + 1) 0 (decimal_text 20 abs) m at (decimal_text-Digits 20 abs)
        enough in
    let e : value 0 (decimal_text 20 abs) % 2 ^ 64 ≡ abs =
      omega (arith, value-decimal_text 20 abs (omega (arith, small, low))) in
    let back : (2 ^ 64 - abs) % 2 ^ 64 ≡ num = omega (arith, small, low) in
    rw
      (atol, skip_spaces-none fuel p m (λ e. absurd (omega (arith, e, minus))), minus, run, e, back)
      refl

TextAt-of :
    (m : Bytes) (p : ℕ) (t : List ℕ)
    → ((i : ℕ) → i < length t → m (p + i) ≡ nth t i)
    → m (p + length t) ≡ 0
    → TextAt m p t
TextAt-of m p [] bytes end = let e : p + 0 ≡ p = omega arith in rw e at end
TextAt-of m p (b ∷ t) bytes end =
    let e : p + 0 ≡ p = omega arith in
    let shift : (i : ℕ) → p + suc i ≡ p + 1 + i = λ i. omega arith in
    (
      rw e at (bytes 0 (omega arith)),
      TextAt-of m (p + 1) t (λ i lt. rw (shift i) at (bytes (suc i) (omega (arith, lt))))
          (rw (shift (length t)) at end),
    )

truncated-TextAt :
    (out n : ℕ) (t : List ℕ) (m : Bytes) → length t < n → TextAt (truncated out n t m) out t
truncated-TextAt out n t m room =
    TextAt-of (truncated out n t m) out t (λ i lt. ground arith) (ground arith)

-- vsnprintf of `num` returns, and atol of the buffer then gives `num`.
abbrev pub ReadsBack : ℕ → ℕ → ℕ → ℕ → ℕ → Bytes → Type 0
ReadsBack out n fuel s num m =
    (m' : Bytes) × (size : ℕ) × (vsnprintf out n (suc fuel) s (num ∷ []) m ≡ some (m', size))
    × (atol (suc fuel) out m' ≡ some num)

-- `%ld`
abbrev pub long_format : List ℕ
long_format = 37 ∷ 108 ∷ 100 ∷ []

module _ (out n fuel s num : ℕ) (m : Bytes) (small : num < 2 ^ 64) (room : 23 ≤ n)
    (at : StringAt out n m s long_format) (enough : 23 ≤ fuel) where
  formatted_long :
      (t : List ℕ)
      → signed_text num ≡ some t
      → formatted n 0 long_format false false (number num ∷ []) ≡ some (t ++ [])
  unfolding formatted piece conversion as_long
  formatted_long t e =
      let e' : num % 2 ^ 64 ≡ num = omega (arith, small) in rw (formatted, e', e) refl

  reads_back :
      (t : List ℕ)
      → signed_text num ≡ some t
      → length t ≤ 22
      → (TextAt (truncated out n t m) out t → atol (suc fuel) out (truncated out n t m) ≡ some num)
      → ReadsBack out n fuel s num m
  reads_back t e short read =
      let f = rw (append-nil t) at (formatted_long t e) in
      (
        truncated out n t m,
        length t % 2 ^ 32,
        vsnprintf-truncated out n (suc fuel) s m long_format (number num ∷ []) (num ∷ []) t f
            (omega (arith, short)) at (omega (arith, enough)) (refl, tt),
        read (truncated-TextAt out n t m (omega (arith, short, room))),
      )

  -- vsnprintf of the format "%ld" and a 64-bit number other than the least long, into a buffer of
  -- 23 bytes or more that the format does not overlap, with fuel for 23 characters: it returns, and
  -- atol of the buffer reads the number back.
  pub vsnprintf-atol : num ≢ 2 ^ 63 → ReadsBack out n fuel s num m
  unfolding signed_text
  vsnprintf-atol other =
      let rest : (num == 2 ^ 63) ≡ false = ne→==_false num (2 ^ 63) other in
      elim (Bool-cases (ltb (2 ^ 63) num)) [
        | inl negative ↦
            let abs : ℕ = 2 ^ 64 - num in
            let short = length-decimal_text 20 abs in
            reads_back (45 ∷ decimal_text 20 abs) (rw (signed_text, rest, negative) refl)
              (omega (arith, short))
              λ text.
                atol-negative fuel out num _ text (ground arith) small
                  (omega (arith, short, enough))
        | inr natural ↦
            let short = length-decimal_text 20 num in
            reads_back (decimal_text 20 num) (rw (signed_text, rest, natural) refl)
              (omega (arith, short))
              λ text.
                atol-natural fuel out num _ text small (omega (arith, short, enough))
                  (no_sign (decimal_text 20 num) _ out text (decimal_text-Digits 20 num))
      ]
