-- ===== src/Format/Printer.antt =====
-- vsnprintf of util/snprintf.c, on a memory of bytes.
use pke.Base.{
  ℕ, zero, suc, ◌+◌, ◌-◌, ◌*◌, ◌/◌, ◌%◌, ◌^◌, Bool, true, false, ◌==◌, ltb, if◌then◌else◌, Option,
  none, some, List, [], ◌∷◌,
}
use pke.Strings.Bytes.{Bytes, put_byte}

-- The memory, `pos`, and the 64-bit slots of the arguments that va_arg has not taken yet.
pub record Printer : Type 0 where
  pub mem : Bytes
  pub pos : ℕ
  pub args : List ℕ

-- `format` and `longarg` after a round of the loop over the format.
pub record Round : Type 0 where
  pub format : Bool
  pub longarg : Bool
  pub printer : Printer

-- The cases of the switch.
pub data Conversion : Type 0 where
  long_flag pointer hex decimal string char other : Conversion

unfoldable pub conversion : ℕ → Conversion
conversion c =
    if c == 108
    then long_flag
    else if c == 112
    then pointer
    else if c == 120
    then hex
    else if c == 100
    then decimal
    else if c == 115
    then string
    else if c == 99
    then char
    else other

-- `longarg ? va_arg(vl, long) : va_arg(vl, int)` as a `long`, in two's complement.
unfoldable pub as_long : Bool → ℕ → ℕ
as_long true w = w % 2 ^ 64
as_long false w = if ltb (w % 2 ^ 32) (2 ^ 31) then w % 2 ^ 32 else w % 2 ^ 32 + (2 ^ 64 - 2 ^ 32)

-- An argument past the last one is undefined.
abbrev pub with_arg : List ℕ → Printer → (ℕ → Printer → Option Round) → Option Round
with_arg [] st k = none
with_arg (w ∷ ws) st k = k w (record st { args = ws })

-- `for (long nn = num; nn /= 10; digits++);` from `digits = 1`; a long has at most 20 digits.
unfoldable pub count_digits : ℕ → ℕ → ℕ
count_digits zero nn = 1
count_digits (suc fuel) nn =
    let rest : ℕ = count_digits fuel (nn / 10) in if nn / 10 == 0 then 1 else suc rest

abbrev pub hex_digit : ℕ → ℕ
hex_digit d = if ltb d 10 then 48 + d else 97 + d - 10

abbrev pub done : Printer → Round
done st = record { format = false; longarg = false; printer = st }

abbrev pub done_if : Option Printer → Option Round
done_if none = none
done_if (some st) = some (done st)

-- The buffer: `n` bytes from `out`.
module _ (out n : ℕ) where
  -- `if (++pos < n) out[pos - 1] = c`
  unfoldable pub put_char : ℕ → Printer → Printer
  put_char c st =
      let pos : ℕ = (st.pos + 1) % 2 ^ 64 in
      record st {
        pos = pos;
        mem = if ltb pos n then put_byte st.mem (out + (pos + 2 ^ 64 - 1) % 2 ^ 64) c else st.mem;
      }

  -- `for (int i = count - 1; i >= 0; i--)` over the digits of four bits.
  unfoldable pub put_hex : ℕ → ℕ → Printer → Printer
  put_hex zero num st = st
  put_hex (suc i) num st = put_hex i num (put_char (hex_digit (num / 2 ^ (4 * i) % 16)) st)

  -- `for (int i = digits - 1; i >= 0; i--)` over the decimal digits.
  unfoldable pub write_digits : ℕ → ℕ → ℕ → Bytes → Bytes
  write_digits zero num pos mem = mem
  write_digits (suc i) num pos mem = write_digits i (num / 10) pos (
      if ltb ((pos + i + 1) % 2 ^ 64) n
      then put_byte mem (out + (pos + i) % 2 ^ 64) (48 + num % 10)
      else mem)

  unfoldable pub put_decimal : ℕ → Printer → Printer
  put_decimal num st =
      let digits : ℕ = count_digits 20 num in
      record st { mem = write_digits digits num st.pos st.mem; pos = (st.pos + digits) % 2 ^ 64 }

  -- `-num` of the least long is undefined.
  unfoldable pub put_signed : ℕ → Printer → Option Printer
  put_signed num st =
      if num == 2 ^ 63
      then none
      else if ltb (2 ^ 63) num
      then some (put_decimal (2 ^ 64 - num) (put_char 45 st))
      else some (put_decimal num st)

  -- `while (*s2)`, with fuel.
  unfoldable pub put_string : ℕ → ℕ → Printer → Option Printer
  put_string zero s2 st = none
  put_string (suc fuel) s2 st =
      let rest : Option Printer = put_string fuel (s2 + 1) (put_char (st.mem s2) st) in
      if st.mem s2 == 0 then some st else rest

  -- No argument is taken when the character has no room.
  unfoldable pub put_char_arg : Printer → Option Round
  put_char_arg st =
      if ltb ((st.pos + 1) % 2 ^ 64) n
      then with_arg st.args st (λ w t. some (done (put_char (w % 256) t)))
      else some (done (record st { pos = (st.pos + 1) % 2 ^ 64 }))

  abbrev hex_arg : Bool → Printer → Option Round
  hex_arg longarg st =
      with_arg st.args st
        λ w t. some (done (put_hex (if longarg then 16 else 8) (as_long longarg w) t))

  -- The switch, after a `%`.
  unfoldable pub convert : ℕ → Conversion → Bool → Printer → Option Round
  convert fuel long_flag longarg st = some (record { format = true; longarg = true; printer = st })
  convert fuel pointer longarg st = hex_arg true (put_char 120 (put_char 48 st))
  convert fuel hex longarg st = hex_arg longarg st
  convert fuel decimal longarg st =
      with_arg st.args st λ w t. done_if (put_signed (as_long longarg w) t)
  convert fuel string longarg st = with_arg st.args st λ w t. done_if (put_string fuel w t)
  convert fuel char longarg st = put_char_arg st
  convert fuel other longarg st = some (record { format = true; longarg = longarg; printer = st })

  -- A round of the loop, at the character `c` of the format.
  unfoldable pub round : ℕ → ℕ → Bool → Bool → Printer → Option Round
  round fuel c true longarg st = convert fuel (conversion c) longarg st
  round fuel c false longarg st =
      if c == 37
      then some (record { format = true; longarg = longarg; printer = st })
      else some (record { format = false; longarg = longarg; printer = put_char c st })

  -- `for (; *s; s++)`, with `rounds` as fuel.
  unfoldable pub print_loop : ℕ → ℕ → ℕ → Bool → Bool → Printer → Option Printer
  print_loop fuel zero s format longarg st = none
  print_loop fuel (suc rounds) s format longarg st = elim (st.mem s == 0) [
    | true ↦ some st
    | false ↦ elim (round fuel (st.mem s) format longarg st) [
      | none ↦ none
      | some r ↦ print_loop fuel rounds (s + 1) r.format r.longarg r.printer
    ]
  ]

  -- The byte that ends the text, and `pos` as an int32.
  unfoldable pub terminate : Printer → Bytes × ℕ
  terminate st = (
    if ltb st.pos n
        then put_byte st.mem (out + st.pos) 0
        else if n == 0
        then st.mem
        else put_byte st.mem (out + (n - 1)) 0,
    st.pos % 2 ^ 32,
  )

  unfoldable pub vsnprintf : ℕ → ℕ → List ℕ → Bytes → Option (Bytes × ℕ)
  vsnprintf fuel s vl m =
      elim (print_loop fuel fuel s false false (record { mem = m; pos = 0; args = vl })) [
        | none ↦ none
        | some st ↦ some (terminate st)
      ]
