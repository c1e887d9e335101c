-- ===== src/Strings/Bytes.antt =====
-- The functions of util/string.c. A pointer is an address, a memory gives the byte at each address.
use pke.Base.{
  ◌^◌, ℕ, zero, suc, ◌+◌, ◌-◌, ◌*◌, ◌/◌, ◌%◌, Bool, ◌==◌, ltb, leb, ◌&&◌, not, if◌then◌else◌,
  bit_or, bit_and, Option, none, some,
}

abbrev pub Bytes : Type 0
Bytes = ℕ → ℕ

abbrev pub put_byte : Bytes → ℕ → ℕ → Bytes
put_byte m a v = λ b. if b == a then v else m b

-- A 64-bit access at an aligned address is eight bytes at once.
abbrev pub copy_word : Bytes → ℕ → ℕ → Bytes
copy_word m d s = λ b. if leb d b && ltb b (d + 8) then m (s + (b - d)) else m b

-- `*d++ = *s++`, n times.
unfoldable pub copy_up : ℕ → ℕ → ℕ → Bytes → Bytes
copy_up zero d s m = m
copy_up (suc n) d s m = copy_up n (d + 1) (s + 1) (put_byte m d (m s))

-- `*--d = *--s`, n times.
unfoldable pub copy_down : ℕ → ℕ → ℕ → Bytes → Bytes
copy_down zero d s m = m
copy_down (suc n) d s m = copy_down n (d - 1) (s - 1) (put_byte m (d - 1) (m (s - 1)))

-- The loop of memcpy over words, with its number of rounds.
unfoldable pub copy_words_up : ℕ → ℕ → ℕ → Bytes → Bytes
copy_words_up zero d s m = m
copy_words_up (suc n) d s m = copy_words_up n (d + 8) (s + 8) (copy_word m d s)

abbrev pub both_aligned : ℕ → ℕ → Bool
both_aligned dest src = bit_and (bit_or dest src) 7 == 0

-- The loop over words runs while eight bytes are left, the loop over bytes takes the rest.
unfoldable pub memcpy : ℕ → ℕ → ℕ → Bytes → Bytes
unfolding copy_up copy_words_up
memcpy dest src len m =
    if both_aligned dest src
    then copy_up (len % 8) (dest + len / 8 * 8) (src + len / 8 * 8)
        (copy_words_up (len / 8) dest src m)
    else copy_up len dest src m

unfoldable pub memmove : ℕ → ℕ → ℕ → Bytes → Bytes
unfolding copy_up copy_down
memmove dst src n m =
    if ltb src dst && ltb dst (src + n)
    then copy_down n (dst + n) (src + n) m
    else copy_up n dst src m

-- `*d++ = byte`, n times, and the same on words whose eight bytes are all `byte`.
unfoldable pub fill_up : ℕ → ℕ → ℕ → Bytes → Bytes
fill_up zero d byte m = m
fill_up (suc n) d byte m = fill_up n (d + 1) byte (put_byte m d (byte % 256))

unfoldable pub fill_words_up : ℕ → ℕ → ℕ → Bytes → Bytes
fill_words_up zero d byte m = m
fill_words_up (suc n) d byte m =
    fill_words_up n (d + 8) byte (λ b. if leb d b && ltb b (d + 8) then byte % 256 else m b)

unfoldable pub memset : ℕ → ℕ → ℕ → Bytes → Bytes
unfolding fill_up fill_words_up
memset dest byte len m =
    if both_aligned dest len then fill_words_up (len / 8) dest byte m else fill_up len dest byte m

-- `while (*p) p++`, with fuel; `none` when it outlives it.
unfoldable pub strlen : ℕ → ℕ → Bytes → Option ℕ
strlen zero p m = none
strlen (suc fuel) p m =
    let rest : Option ℕ = strlen fuel (p + 1) m in
    if m p == 0 then some 0 else elim rest [ none ↦ none | some n ↦ some (suc n) ]

-- strcmp: the last two bytes that it reads, whose difference it returns.
unfoldable pub strcmp : ℕ → ℕ → ℕ → Bytes → Option (ℕ × ℕ)
strcmp zero s1 s2 m = none
strcmp (suc fuel) s1 s2 m =
    let rest : Option (ℕ × ℕ) = strcmp fuel (s1 + 1) (s2 + 1) m in
    if not (m s1 == 0) && m s1 == m s2 then rest else some (m s1, m s2)

-- `while ((*d++ = *src++))`.
unfoldable pub strcpy : ℕ → ℕ → ℕ → Bytes → Option Bytes
strcpy zero d s m = none
strcpy (suc fuel) d s m =
    let rest : Option Bytes = strcpy fuel (d + 1) (s + 1) (put_byte m d (m s)) in
    if m s == 0 then some (put_byte m d 0) else rest

-- `while (*str == ' ') str++`
unfoldable pub skip_spaces : ℕ → ℕ → Bytes → Option ℕ
skip_spaces zero str m = none
skip_spaces (suc fuel) str m =
    let rest : Option ℕ = skip_spaces fuel (str + 1) m in if m str == 32 then rest else some str

-- `res *= 10; res += *str++ - '0'` to the end of the string, on 64-bit words.
unfoldable pub digits_loop : ℕ → ℕ → ℕ → Bytes → Option ℕ
digits_loop zero str res m = none
digits_loop (suc fuel) str res m =
    let rest : Option ℕ =
      digits_loop fuel (str + 1) ((res * 10 + m str + 2 ^ 64 - 48) % 2 ^ 64) m in
    if m str == 0 then some res else rest

-- The digits at `str`, and their negation in two's complement.
abbrev natural : ℕ → ℕ → Bytes → Option ℕ
natural fuel str m = digits_loop fuel str 0 m

abbrev negated : Option ℕ → Option ℕ
negated none = none
negated (some res) = some ((2 ^ 64 - res) % 2 ^ 64)

unfoldable pub atol : ℕ → ℕ → Bytes → Option ℕ
atol fuel str m = elim (skip_spaces fuel str m) [
  | none ↦ none
  | some p ↦
      if m p == 45
      then negated (natural fuel (p + 1) m)
      else if m p == 43
      then natural fuel (p + 1) m
      else natural fuel p m
]

-- `while (--n > 0 && (*s++ = *t++) != 0)` of safestrcpy with `n` as it is tested, then `*s = 0`.
unfoldable pub safe_loop : ℕ → ℕ → ℕ → Bytes → Bytes
safe_loop zero s t m = put_byte m s 0
safe_loop (suc n) s t m =
    let rest : Bytes = safe_loop n (s + 1) (t + 1) (put_byte m s (m t)) in
    if m t == 0 then put_byte (put_byte m s 0) (s + 1) 0 else rest

-- `n` is not negative here.
unfoldable pub safestrcpy : ℕ → ℕ → ℕ → Bytes → Bytes
unfolding safe_loop
safestrcpy s t zero m = m
safestrcpy s t (suc n) m = safe_loop n s t m
