-- ===== src/Format/Digits.antt =====
-- The digits that vsnprintf writes are those of the number.
use pke.Base.{
  ap₂, ℕ, zero, suc, ◌+◌, ◌-◌, ◌*◌, ◌/◌, ◌%◌, ◌^◌, ◌<◌, ◌≡◌, refl, ap, ◌∙◌, sym, ◌==◌, ltb, leb,
  ◌&&◌, if◌then◌else◌, List, [], ◌∷◌, ◌++◌, length, length-append, arith, Bool-cases, inl, inr,
  fun_ext,
}
use mathlib.Core.List.{append_assoc, append-nil}
use native.Mathlib.Nat.{div-div-eq-div-mul, pow-suc}
use pke.Strings.Bytes.{Bytes, put_byte}
use pke.Format.Printer.{
  Printer, put_char, put_hex, put_decimal, write_digits, count_digits, hex_digit,
}
use pke.Format.Spec.{hex_text, decimal_text}

abbrev pub nth : List ℕ → ℕ → ℕ
nth [] i = 0
nth (x ∷ xs) zero = x
nth (x ∷ xs) (suc i) = nth xs i

pub nth-append :
    (xs ys : List ℕ) (i : ℕ)
    → nth (xs ++ ys) i ≡ (if ltb i (length xs) then nth xs i else nth ys (i - length xs))
nth-append [] ys i = ground arith
nth-append (x ∷ xs) ys zero = ground arith
nth-append (x ∷ xs) ys (suc i) = ground (arith, nth-append xs ys i)

-- The text `t` in the buffer, as far as it has room; the rest is as in `m`.
abbrev pub written : ℕ → ℕ → List ℕ → Bytes → Bytes
written out n t m = λ b.
    if leb out b && ltb (b - out) (length t) && ltb (b - out + 1) n then nth t (b - out) else m b

abbrev printer_of : Bytes → ℕ → List ℕ → Printer
printer_of mem pos args = record { mem = mem; pos = pos; args = args }

module _ (out n : ℕ) (m : Bytes) where
  -- The state of vsnprintf when it has printed `t`.
  abbrev pub printed : List ℕ → List ℕ → Printer
  printed t ws = record { mem = written out n t m; pos = length t; args = ws }

  pub written-snoc :
      (t : List ℕ) (c b : ℕ)
      → (if ltb (length t + 1) n
            then put_byte (written out n t m) (out + length t) c
            else written out n t m)
          b
        ≡ written out n (t ++ (c ∷ [])) m b
  written-snoc t c b = ground (arith, length-append t (c ∷ []), nth-append t (c ∷ []) (b - out))

  pub printed_of :
      (t ws : List ℕ) (mem : Bytes) (pos : ℕ)
      → ((b : ℕ) → mem b ≡ written out n t m b)
      → pos ≡ length t
      → ◌≡◌ {A = Printer} (record { mem = mem; pos = pos; args = ws }) (printed t ws)
  printed_of t ws mem pos same size =
      ap₂ (λ (f : Bytes) (k : ℕ). printer_of f k ws) (fun_ext same) size

  pub put_char-printed :
      (c : ℕ) (t ws : List ℕ)
      → length t + 1 < 2 ^ 64
      → put_char out n c (printed t ws) ≡ printed (t ++ (c ∷ [])) ws
  unfolding put_char
  put_char-printed c t ws h =
      let e : (length t + 1) % 2 ^ 64 ≡ length t + 1 = omega (arith, h) in
      let e' : (length t + 1 + 2 ^ 64 - 1) % 2 ^ 64 ≡ length t = omega (arith, h) in
      rw (e, e')
        (printed_of (t ++ (c ∷ [])) ws _ _ (written-snoc t c) (sym (length-append t (c ∷ []))))

  pub length-hex_text : (k num : ℕ) → length (hex_text k num) ≡ k
  unfolding hex_text
  length-hex_text zero num = refl
  length-hex_text (suc k) num =
      length-append (hex_text k (num / 16)) _ ∙ omega (arith, length-hex_text k (num / 16))

  -- The digits from the highest down.
  abbrev hex_down : ℕ → ℕ → List ℕ
  hex_down zero num = []
  hex_down (suc i) num = hex_digit (num / 2 ^ (4 * i) % 16) ∷ hex_down i num

  shift_step : (k : ℕ) → 2 ^ (4 * suc k) ≡ 16 * 2 ^ (4 * k)
  shift_step k =
      let e : 4 * suc k ≡ suc (suc (suc (suc (4 * k)))) = omega arith in
      rw e (
        omega (
          arith,
          pow-suc 2 (suc (suc (suc (4 * k)))),
          pow-suc 2 (suc (suc (4 * k))),
          pow-suc 2 (suc (4 * k)),
          pow-suc 2 (4 * k),
        ))

  next_digit : (k num : ℕ) → num / 2 ^ (4 * suc k) ≡ num / 16 / 2 ^ (4 * k)
  next_digit k num = rw (shift_step k) (sym (div-div-eq-div-mul num 16 (2 ^ (4 * k))))

  hex_down-snoc :
      (k num : ℕ) → hex_down (suc k) num ≡ hex_down k (num / 16) ++ (hex_digit (num % 16) ∷ [])
  hex_down-snoc zero num = ap (λ (q : ℕ). hex_digit (q % 16) ∷ []) (omega arith)
  hex_down-snoc (suc k) num =
      ap₂ (λ (d : ℕ) (ds : List ℕ). d ∷ ds) (ap (λ (q : ℕ). hex_digit (q % 16)) (next_digit k num))
        (hex_down-snoc k num)

  hex_down-hex_text : (k num : ℕ) → hex_down k num ≡ hex_text k num
  unfolding hex_text
  hex_down-hex_text zero num = refl
  hex_down-hex_text (suc k) num =
      hex_down-snoc k num
      ∙ ap (λ (ds : List ℕ). ds ++ (hex_digit (num % 16) ∷ [])) (hex_down-hex_text k (num / 16))

  put_hex-down :
      (k num : ℕ) (t ws : List ℕ)
      → length t + k < 2 ^ 64
      → put_hex out n k num (printed t ws) ≡ printed (t ++ hex_down k num) ws
  unfolding put_hex
  put_hex-down zero num t ws h = ap (λ (u : List ℕ). printed u ws) (sym (append-nil t))
  put_hex-down (suc k) num t ws h =
      let c : ℕ = hex_digit (num / 2 ^ (4 * k) % 16) in
      rw (put_char-printed c t ws (omega (arith, h))) (
        put_hex-down k num (t ++ (c ∷ [])) ws (omega (arith, h, length-append t (c ∷ [])))
        ∙ ap (λ (u : List ℕ). printed u ws) (append_assoc t (c ∷ []) (hex_down k num)))

  pub put_hex-printed :
      (k num : ℕ) (t ws : List ℕ)
      → length t + k < 2 ^ 64
      → put_hex out n k num (printed t ws) ≡ printed (t ++ hex_text k num) ws
  put_hex-printed k num t ws h =
      put_hex-down k num t ws h
      ∙ ap (λ (ds : List ℕ). printed (t ++ ds) ws) (hex_down-hex_text k num)

  -- The last `k` decimal digits.
  abbrev low_digits : ℕ → ℕ → List ℕ
  low_digits zero num = []
  low_digits (suc k) num = low_digits k (num / 10) ++ ((48 + num % 10) ∷ [])

  length-low_digits : (k num : ℕ) → length (low_digits k num) ≡ k
  length-low_digits zero num = refl
  length-low_digits (suc k) num =
      length-append (low_digits k (num / 10)) _ ∙ omega (arith, length-low_digits k (num / 10))

  low_digits-decimal_text :
      (fuel num : ℕ) → low_digits (count_digits fuel num) num ≡ decimal_text fuel num
  unfolding count_digits decimal_text
  low_digits-decimal_text zero num = refl
  low_digits-decimal_text (suc fuel) num = elim (Bool-cases (num / 10 == 0)) [
    | inl last ↦ rw last refl
    | inr more ↦ rw more (
        ap (λ (ds : List ℕ). ds ++ ((48 + num % 10) ∷ []))
          (low_digits-decimal_text fuel (num / 10)))
  ]

  write_digits-low :
      (k num pos b : ℕ) (mem : Bytes)
      → pos + k < 2 ^ 64
      → write_digits out n k num pos mem b ≡ (
          if leb (out + pos) b && ltb b (out + pos + k) && ltb (b - out + 1) n
          then nth (low_digits k num) (b - out - pos)
          else mem b)
  unfolding write_digits
  write_digits-low zero num pos b mem h = ground arith
  write_digits-low (suc k) num pos b mem h =
      let e : (pos + k + 1) % 2 ^ 64 ≡ pos + k + 1 = omega (arith, h) in
      let e' : (pos + k) % 2 ^ 64 ≡ pos + k = omega (arith, h) in
      rw (e, e')
        (write_digits-low k (num / 10) pos b _ (omega (arith, h))
          ∙ ground (
            arith,
            nth-append (low_digits k (num / 10)) ((48 + num % 10) ∷ []) (b - out - pos),
            length-low_digits k (num / 10),
          ))

  written-append :
      (t d : List ℕ) (k b : ℕ)
      → length d ≡ k
      → (if leb (out + length t) b && ltb b (out + length t + k) && ltb (b - out + 1) n
          then nth d (b - out - length t)
          else written out n t m b)
        ≡ written out n (t ++ d) m b
  written-append t d k b size = ground (arith, length-append t d, nth-append t d (b - out), size)

  pub put_decimal-printed :
      (num : ℕ) (t ws : List ℕ)
      → length t + length (decimal_text 20 num) < 2 ^ 64
      → put_decimal out n num (printed t ws) ≡ printed (t ++ decimal_text 20 num) ws
  unfolding put_decimal
  put_decimal-printed num t ws h =
      let k : ℕ = count_digits 20 num in
      let same : low_digits k num ≡ decimal_text 20 num = low_digits-decimal_text 20 num in
      let size : length (decimal_text 20 num) ≡ k =
        ap length (sym same) ∙ length-low_digits k num in
      let fits : (length t + k) % 2 ^ 64 ≡ length t + k = omega (arith, h, size) in
      rw fits (
        printed_of (t ++ decimal_text 20 num) ws _ _
          (λ b.
            write_digits-low k num (length t) b (written out n t m) (omega (arith, h, size))
            ∙ (rw same (written-append t (decimal_text 20 num) k b size)))
          (omega (arith, size, length-append t (decimal_text 20 num))))
