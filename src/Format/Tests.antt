-- ===== src/Format/Tests.antt =====
-- vsnprintf on small buffers.
use pke.Base.{
  none, ℕ, ◌-◌, ◌^◌, ◌≡◌, refl, inl, arith, false, Option, some, List, [], ◌∷◌, if◌then◌else◌, ltb,
}
use pke.Strings.Bytes.{Bytes}
use pke.Format.Printer.{
  vsnprintf, print_loop, terminate, round, convert, conversion, put_char, put_hex, put_signed,
  put_decimal, write_digits, count_digits, put_string, put_char_arg, as_long,
}
use pke.Format.Spec.{number, text, formatted, piece, hex_text, decimal_text, signed_text}
use pke.Format.Digits.{nth}
use pke.Format.ReadBack.{ReadsBack, long_format, vsnprintf-atol}
use pke.Format.Truncation.{truncated, vsnprintf-truncated}

-- "%d:%s", and the string "hi".
abbrev format_bytes : List ℕ
format_bytes = 37 ∷ 100 ∷ 58 ∷ 37 ∷ 115 ∷ []

abbrev strings : Bytes
strings = λ b.
    if ltb b 100
    then 1
    else if ltb b 200
    then nth format_bytes (b - 100)
    else nth (104 ∷ 105 ∷ []) (b - 200)

abbrev minus_five : ℕ
minus_five = 2 ^ 64 - 5

abbrev byte_at : ℕ → Option (Bytes × ℕ) → ℕ
byte_at b none = 0
byte_at b (some r) = r.0 b

-- "-5:hi" in a buffer of four bytes: the third byte is the colon.
third_byte : byte_at 1002 (vsnprintf 1000 4 8 100 (minus_five ∷ 200 ∷ []) strings) ≡ 58
unfolding vsnprintf print_loop terminate round convert conversion put_char put_hex put_signed
    put_decimal write_digits count_digits put_string put_char_arg as_long
third_byte = refl

formatted_five :
    formatted 4 0 format_bytes false false (number minus_five ∷ text (104 ∷ 105 ∷ []) ∷ [])
    ≡ some (45 ∷ 53 ∷ 58 ∷ 104 ∷ 105 ∷ [])
unfolding formatted piece hex_text decimal_text signed_text conversion as_long
formatted_five = refl

vsnprintf-truncated_example :
    vsnprintf 1000 4 8 100 (minus_five ∷ 200 ∷ []) strings
    ≡ some (truncated 1000 4 (45 ∷ 53 ∷ 58 ∷ 104 ∷ 105 ∷ []) strings, 5)
vsnprintf-truncated_example =
    vsnprintf-truncated 1000 4 8 100 strings format_bytes
      (number minus_five ∷ text (104 ∷ 105 ∷ []) ∷ []) (minus_five ∷ 200 ∷ [])
      (45 ∷ 53 ∷ 58 ∷ 104 ∷ 105 ∷ []) formatted_five (omega arith)
      (
        inl (omega arith),
        refl,
        (λ e. cc),
        (
          inl (omega arith),
          refl,
          (λ e. cc),
          (
            inl (omega arith),
            refl,
            (λ e. cc),
            (
              inl (omega arith),
              refl,
              (λ e. cc),
              (inl (omega arith), refl, (λ e. cc), (inl (omega arith), refl)),
            ),
          ),
        ),
      )
      (omega arith)
      (
        refl,
        (
          (
            inl (omega arith),
            refl,
            (λ e. cc),
            (inl (omega arith), refl, (λ e. cc), (inl (omega arith), refl)),
          ),
          omega arith,
          tt,
        ),
      )

-- "%ld" at 100.
abbrev long_bytes : Bytes
long_bytes = λ b. if ltb b 100 then 1 else nth long_format (b - 100)

vsnprintf-atol_example : ReadsBack 1000 64 30 100 minus_five long_bytes
vsnprintf-atol_example =
    vsnprintf-atol 1000 64 30 100 minus_five long_bytes (omega arith) (omega arith)
      (
        inl (omega arith),
        refl,
        (λ e. cc),
        (
          inl (omega arith),
          refl,
          (λ e. cc),
          (inl (omega arith), refl, (λ e. cc), (inl (omega arith), refl)),
        ),
      )
      (omega arith) (λ e. absurd (omega (arith, e)))
