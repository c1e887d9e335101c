-- ===== src/Format/Spec.antt =====
-- The text that a format stands for, on lists, without a buffer.
use pke.Base.{
  ℕ, zero, suc, ◌+◌, ◌-◌, ◌/◌, ◌%◌, ◌^◌, Bool, true, false, ◌==◌, ltb, if◌then◌else◌, Option, none,
  some, List, [], ◌∷◌, ◌++◌, length,
}
use pke.Format.Printer.{
  Conversion, long_flag, pointer, hex, decimal, string, char, other, conversion, as_long, hex_digit,
}

-- An argument: a number in its 64-bit slot, or a string.
pub data Arg : Type 0 where
  number : ℕ → Arg
  text : List ℕ → Arg

-- A number in `k` hexadecimal digits, and in as many decimal digits as it needs.
unfoldable pub hex_text : ℕ → ℕ → List ℕ
hex_text zero num = []
hex_text (suc k) num = hex_text k (num / 16) ++ (hex_digit (num % 16) ∷ [])

unfoldable pub decimal_text : ℕ → ℕ → List ℕ
decimal_text zero num = (48 + num % 10) ∷ []
decimal_text (suc k) num =
    let rest : List ℕ = decimal_text k (num / 10) in
    (if num / 10 == 0 then [] else rest) ++ ((48 + num % 10) ∷ [])

-- A long in two's complement; the least one has no text.
unfoldable pub signed_text : ℕ → Option (List ℕ)
signed_text num =
    if num == 2 ^ 63
    then none
    else if ltb (2 ^ 63) num
    then some (45 ∷ decimal_text 20 (2 ^ 64 - num))
    else some (decimal_text 20 num)

-- What one character of the format adds to the text, and what it leaves for the next.
pub record Piece : Type 0 where
  pub shown : List ℕ
  pub format : Bool
  pub longarg : Bool
  pub rest : List Arg

abbrev pub shows : List ℕ → List Arg → Option Piece
shows t args = some (record { shown = t; format = false; longarg = false; rest = args })

abbrev pub shows_if : Option (List ℕ) → List Arg → Option Piece
shows_if none args = none
shows_if (some t) args = shows t args

abbrev pub with_number : List Arg → (ℕ → List Arg → Option Piece) → Option Piece
with_number (number w ∷ args) k = k w args
with_number _ k = none

abbrev pub with_text : List Arg → Option Piece
with_text (text bs ∷ args) = shows bs args
with_text _ = none

-- `room`: the buffer has room for one character more. A `%c` without room takes no argument.
abbrev pub converted : Bool → Conversion → Bool → List Arg → Option Piece
converted room long_flag longarg args =
    some (record { shown = []; format = true; longarg = true; rest = args })
converted room pointer longarg args =
    with_number args λ w rest. shows (48 ∷ 120 ∷ hex_text 16 (as_long true w)) rest
converted room hex longarg args =
    with_number args λ w rest. shows (hex_text (if longarg then 16 else 8) (as_long longarg w)) rest
converted room decimal longarg args =
    with_number args λ w rest. shows_if (signed_text (as_long longarg w)) rest
converted room string longarg args = with_text args
converted true char longarg args = with_number args λ w rest. shows (w % 256 ∷ []) rest
converted false char longarg args = shows (0 ∷ []) args
converted room other longarg args =
    some (record { shown = []; format = true; longarg = longarg; rest = args })

unfoldable pub piece : Bool → ℕ → Bool → Bool → List Arg → Option Piece
piece room c true longarg args = converted room (conversion c) longarg args
piece room c false longarg args =
    if c == 37
    then some (record { shown = []; format = true; longarg = longarg; rest = args })
    else some (record { shown = c ∷ []; format = false; longarg = longarg; rest = args })

-- The text of the format `fs` behind `pos` characters, for a buffer of `n` bytes.
unfoldable pub formatted : ℕ → ℕ → List ℕ → Bool → Bool → List Arg → Option (List ℕ)
formatted n pos [] format longarg args = some []
formatted n pos (c ∷ fs) format longarg args =
    elim (piece (ltb (pos + 1) n) c format longarg args) [
      | none ↦ none
      | some p ↦ elim (formatted n (pos + length p.shown) fs p.format p.longarg p.rest) [
        | none ↦ none
        | some t ↦ some (p.shown ++ t)
      ]
    ]
