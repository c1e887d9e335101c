-- ===== src/Strings/Copies.antt =====
-- What memcpy, memmove, memset and strlen leave in memory.
use pke.Base.{
  ℕ, zero, suc, ◌+◌, ◌-◌, ◌*◌, ◌/◌, ◌%◌, ◌<◌, ◌≤◌, ◌≡◌, ◌≢◌, ◌⊎◌, refl, ◌∙◌, fun_ext, true, false,
  ◌==◌, ltb, leb, ◌&&◌, if◌then◌else◌, arith, bit_or, Bool-cases, inl, inr, some, ne→==_false, ap,
  subst, sym,
}
use pke.Base.Bits.{and_mask, or_step}
use pke.Strings.Bytes.{
  safe_loop, safestrcpy, Bytes, put_byte, copy_word, copy_up, copy_down, copy_words_up, memcpy,
  memmove, both_aligned, fill_up, fill_words_up, memset, strlen,
}

-- `len` bytes from `src`, as the memory `m` has them, stand at `dest`; the rest is as in `m`.
abbrev pub moved : ℕ → ℕ → ℕ → Bytes → Bytes
moved dest src len m = λ b. if leb dest b && ltb b (dest + len) then m (src + (b - dest)) else m b

-- A copy upwards does not overtake its source.
abbrev pub Upwards : ℕ → ℕ → ℕ → Type 0
Upwards dest src len = (dest ≤ src) ⊎ (src + len ≤ dest)

copy_up-moved :
    (n d s : ℕ) (m : Bytes) (b : ℕ) → Upwards d s n → copy_up n d s m b ≡ moved d s n m b
unfolding copy_up
copy_up-moved zero d s m b u = ground arith
copy_up-moved (suc n) d s m b (inl u) =
    copy_up-moved n (d + 1) (s + 1) (put_byte m d (m s)) b (inl (omega arith)) ∙ ground arith
copy_up-moved (suc n) d s m b (inr u) =
    copy_up-moved n (d + 1) (s + 1) (put_byte m d (m s)) b (inr (omega arith)) ∙ ground arith

copy_down-moved :
    (n d s : ℕ) (m : Bytes) (b : ℕ) → s ≤ d → copy_down n (d + n) (s + n) m b ≡ moved d s n m b
unfolding copy_down
copy_down-moved zero d s m b le = ground arith
copy_down-moved (suc n) d s m b le =
    let ed : d + suc n - 1 ≡ d + n = omega arith in
    let es : s + suc n - 1 ≡ s + n = omega arith in
    rw (ed, es) (copy_down-moved n d s (put_byte m (d + n) (m (s + n))) b le ∙ ground arith)

copy_words_up-moved :
    (n d s : ℕ) (m : Bytes) (b : ℕ)
    → Upwards d s (n * 8)
    → copy_words_up n d s m b ≡ moved d s (n * 8) m b
unfolding copy_words_up
copy_words_up-moved zero d s m b u = ground arith
copy_words_up-moved (suc n) d s m b (inl u) =
    copy_words_up-moved n (d + 8) (s + 8) (copy_word m d s) b (inl (omega arith)) ∙ ground arith
copy_words_up-moved (suc n) d s m b (inr u) =
    copy_words_up-moved n (d + 8) (s + 8) (copy_word m d s) b (inr (omega arith)) ∙ ground arith

Upwards-of : (n dst src : ℕ) → (ltb src dst && ltb dst (src + n)) ≡ false → Upwards dst src n
Upwards-of n dst src up = elim (Bool-cases (ltb src dst)) [
  | inl above ↦ inr (ground arith)
  | inr below ↦ inl (ground arith)
]

-- The words, then the bytes that are left.
words_and_bytes :
    (q r d s : ℕ) (m : Bytes) (b : ℕ)
    → Upwards d s (q * 8 + r)
    → copy_up r (d + q * 8) (s + q * 8) (copy_words_up q d s m) b ≡ moved d s (q * 8 + r) m b
words_and_bytes q r d s m b (inl u) =
    let e : copy_words_up q d s m ≡ moved d s (q * 8) m =
      fun_ext λ c. copy_words_up-moved q d s m c (inl u) in
    rw e (
      copy_up-moved r (d + q * 8) (s + q * 8) (moved d s (q * 8) m) b (inl (omega arith))
      ∙ ground arith)
words_and_bytes q r d s m b (inr u) =
    let e : copy_words_up q d s m ≡ moved d s (q * 8) m =
      fun_ext λ c. copy_words_up-moved q d s m c (inr (omega arith)) in
    rw e (
      copy_up-moved r (d + q * 8) (s + q * 8) (moved d s (q * 8) m) b (inr (omega arith))
      ∙ ground arith)

-- memmove leaves the old bytes of the source at the destination and touches nothing else, however
-- the two overlap.
pub memmove-moved : (dst src n : ℕ) (m : Bytes) → memmove dst src n m ≡ moved dst src n m
unfolding memmove
memmove-moved dst src n m = fun_ext λ b. elim (Bool-cases (ltb src dst && ltb dst (src + n))) [
  | inl down ↦ rw down (copy_down-moved n dst src m b (ground arith))
  | inr up ↦ rw up (copy_up-moved n dst src m b (Upwards-of n dst src up))
]

-- memcpy leaves the old bytes of the source at the destination and touches nothing else, by
-- words or by bytes, when the destination is not behind the source within its length.
pub memcpy-moved :
    (dest src len : ℕ) (m : Bytes)
    → Upwards dest src len
    → memcpy dest src len m ≡ moved dest src len m
unfolding memcpy
memcpy-moved dest src len m u = fun_ext λ b. elim (Bool-cases (both_aligned dest src)) [
  | inl words ↦
      let l : len / 8 * 8 + len % 8 ≡ len = omega arith in
      rw words (
        words_and_bytes (len / 8) (len % 8) dest src m b
          (subst (λ (n : ℕ). Upwards dest src n) (sym l) u)
        ∙ ap (λ (n : ℕ). moved dest src n m b) l)
  | inr bytes ↦ rw bytes (copy_up-moved len dest src m b u)
]

-- The bytes from `dest` on are all `byte`; the rest is as in `m`.
abbrev pub filled : ℕ → ℕ → ℕ → Bytes → Bytes
filled dest byte len m = λ b. if leb dest b && ltb b (dest + len) then byte % 256 else m b

fill_up-filled : (n d byte : ℕ) (m : Bytes) (b : ℕ) → fill_up n d byte m b ≡ filled d byte n m b
unfolding fill_up
fill_up-filled zero d byte m b = ground arith
fill_up-filled (suc n) d byte m b =
    fill_up-filled n (d + 1) byte (put_byte m d (byte % 256)) b ∙ ground arith

fill_words_up-filled :
    (n d byte : ℕ) (m : Bytes) (b : ℕ) → fill_words_up n d byte m b ≡ filled d byte (n * 8) m b
unfolding fill_words_up
fill_words_up-filled zero d byte m b = ground arith
fill_words_up-filled (suc n) d byte m b =
    fill_words_up-filled n (d + 8) byte (filled d byte 8 m) b ∙ ground arith

aligned_len : (dest len : ℕ) → both_aligned dest len ≡ true → len % 8 ≡ 0
aligned_len dest len h = ground (
  arith,
  and_mask 3 (bit_or dest len),
  or_step dest len,
  or_step (dest / 2) (len / 2),
  or_step (dest / 2 / 2) (len / 2 / 2),
)

-- memset fills exactly the `len` bytes from `dest`, by words or by bytes.
pub memset-filled :
    (dest byte len : ℕ) (m : Bytes) → memset dest byte len m ≡ filled dest byte len m
unfolding memset
memset-filled dest byte len m = fun_ext λ b. elim (Bool-cases (both_aligned dest len)) [
  | inl words ↦
      let l : len / 8 * 8 ≡ len = omega (arith, aligned_len dest len words) in
      rw words
        (fill_words_up-filled (len / 8) dest byte m b ∙ ap (λ (n : ℕ). filled dest byte n m b) l)
  | inr bytes ↦ rw bytes (fill_up-filled len dest byte m b)
]

-- strlen returns the position of the first zero byte, once the fuel reaches past it.
pub strlen-first :
    (n fuel p : ℕ) (m : Bytes)
    → m (p + n) ≡ 0
    → ((i : ℕ) → i < n → m (p + i) ≢ 0)
    → n < fuel
    → strlen fuel p m ≡ some n
unfolding strlen
strlen-first n zero p m stop_here before enough = absurd (omega arith)
strlen-first zero (suc fuel) p m stop_here before enough =
    let e : m p ≡ 0 = ap m (omega arith) ∙ stop_here in rw e refl
strlen-first (suc n) (suc fuel) p m stop_here before enough =
    let ne : (m p == 0) ≡ false =
      ne→==_false (m p) 0 (λ e. before 0 (omega arith) (ap m (omega arith) ∙ e)) in
    let rest : strlen fuel (p + 1) m ≡ some n =
      strlen-first n fuel (p + 1) m (ap m (omega arith) ∙ stop_here)
        (λ i hi e. before (i + 1) (omega arith) (ap m (omega arith) ∙ e)) (omega arith) in
    rw (ne, rest) refl

-- The bytes of safestrcpy within its buffer, and a zero byte among them.
safe_loop-bounds :
    (n s t : ℕ) (m : Bytes)
    → ((b : ℕ) → (b < s) ⊎ (s + n < b) → safe_loop n s t m b ≡ m b)
      × ((i : ℕ) × (i ≤ n) × (safe_loop n s t m (s + i) ≡ 0))
unfolding safe_loop
safe_loop-bounds zero s t m = (λ b out. ground arith, (0, omega arith, ground arith))
safe_loop-bounds (suc n) s t m = elim (Bool-cases (m t == 0)) [
  | inl ends ↦ rw ends (λ b out. ground arith, (0, omega arith, ground arith))
  | inr more ↦
      let ih = safe_loop-bounds n (s + 1) (t + 1) (put_byte m s (m t)) in
      rw more (
        λ b out.
            ih.0 b (elim out [ inl l ↦ inl (omega (arith, l)) | inr r ↦ inr (omega (arith, r)) ])
            ∙ ground arith,
        (
          ih.1.0 + 1,
          omega (arith, ih.1.1),
          ap (safe_loop n (s + 1) (t + 1) (put_byte m s (m t))) (omega arith) ∙ ih.1.2,
        ),
      )
]

-- For a buffer of at least one byte, safestrcpy writes only within the `n` bytes of the buffer and
-- leaves a zero byte among them.
pub safestrcpy-bounds :
    (n s t : ℕ) (m : Bytes)
    → 0 < n
    → ((b : ℕ) → (b < s) ⊎ (s + n ≤ b) → safestrcpy s t n m b ≡ m b)
      × ((i : ℕ) × (i < n) × (safestrcpy s t n m (s + i) ≡ 0))
unfolding safestrcpy
safestrcpy-bounds zero s t m pos = absurd (omega arith)
safestrcpy-bounds (suc n) s t m pos =
    let it = safe_loop-bounds n s t m in
    (
      λ b out. it.0 b (elim out [ inl l ↦ inl l | inr r ↦ inr (omega (arith, r)) ]),
      (it.1.0, omega (arith, it.1.1), it.1.2),
    )
