-- ===== src/Strings/Ends.antt =====
-- strcmp and strcpy come to an end, where the strings do.
use pke.Base.{
  ℕ, zero, suc, ◌+◌, ◌-◌, ◌<◌, ◌≤◌, ◌≡◌, ◌≢◌, ◌⊎◌, inl, inr, refl, ap, ◌∙◌, fun_ext, true, false,
  not, ◌==◌, ltb, leb, ◌&&◌, arith, some, Bool-cases,
}
use pke.Strings.Bytes.{Bytes, put_byte, strcmp, strcpy}
use pke.Strings.Copies.{moved}

-- The strings at `s1` and `s2` are alike up to the index `n`, without an end before it, and at `n`
-- one of them ends or they differ.
pub record DifferAt (m : Bytes) (s1 s2 n : ℕ) : Type 0 where
  pub alike : (i : ℕ) → i < n → (m (s1 + i) ≡ m (s2 + i)) × (m (s1 + i) ≢ 0)
  pub here : (m (s1 + n) ≡ 0) ⊎ (m (s1 + n) ≢ m (s2 + n))

DifferAt-suc : (m : Bytes) (s1 s2 n : ℕ) → DifferAt m s1 s2 (suc n) → DifferAt m (s1 + 1) (s2 + 1) n
DifferAt-suc m s1 s2 n d =
    let e1 : (i : ℕ) → s1 + 1 + i ≡ s1 + suc i = λ i. omega arith in
    let e2 : (i : ℕ) → s2 + 1 + i ≡ s2 + suc i = λ i. omega arith in
    record {
      alike = λ i lt. rw (e1 i, e2 i) (d.alike (suc i) (omega (arith, lt)));
      here = rw (e1 n, e2 n) d.here;
    }

-- strcmp of two strings that are alike up to the index `n` and no further, with more fuel than `n`:
-- it comes to an end, with the two bytes at this index.
pub strcmp-DifferAt :
    (n fuel s1 s2 : ℕ) (m : Bytes)
    → DifferAt m s1 s2 n
    → n < fuel
    → strcmp fuel s1 s2 m ≡ some (m (s1 + n), m (s2 + n))
unfolding strcmp
strcmp-DifferAt n zero s1 s2 m d enough = absurd (omega arith)
strcmp-DifferAt zero (suc fuel) s1 s2 m d enough =
    let e1 : s1 + 0 ≡ s1 = omega arith in
    let e2 : s2 + 0 ≡ s2 = omega arith in
    let here = rw (e1, e2) at d.here in
    let test : (not (m s1 == 0) && m s1 == m s2) ≡ false = ground arith in rw (e1, e2, test) refl
strcmp-DifferAt (suc n) (suc fuel) s1 s2 m d enough =
    let e1 : s1 + 0 ≡ s1 = omega arith in
    let e2 : s2 + 0 ≡ s2 = omega arith in
    let first = rw (e1, e2) at (d.alike 0 (omega arith)) in
    let test : (not (m s1 == 0) && m s1 == m s2) ≡ true = ground arith in
    let e1' : s1 + 1 + n ≡ s1 + suc n = omega arith in
    let e2' : s2 + 1 + n ≡ s2 + suc n = omega arith in
    rw (test, ← e1', ← e2')
      (strcmp-DifferAt n fuel (s1 + 1) (s2 + 1) m (DifferAt-suc m s1 s2 n d)
        (omega (arith, enough)))

-- A string of `n` bytes stands at `s`, and shares no byte with the copy of it at `d`.
pub record CopiedApart (m : Bytes) (d s n : ℕ) : Type 0 where
  pub bytes : (i : ℕ) → i < n → m (s + i) ≢ 0
  pub end : m (s + n) ≡ 0
  pub apart : (d + n < s) ⊎ (s + n < d)

abbrev first_put : Bytes → ℕ → ℕ → Bytes
first_put m d s = put_byte m d (m s)

kept : (m : Bytes) (d s i : ℕ) → s + 1 + i ≢ d → first_put m d s (s + 1 + i) ≡ m (s + suc i)
kept m d s i ne = let e : s + suc i ≡ s + 1 + i = omega arith in rw e (ground arith)

beyond : (m : Bytes) (d s n i : ℕ) → CopiedApart m d s (suc n) → i ≤ n → s + 1 + i ≢ d
beyond m d s n i c le e = elim (c.apart) [
  | inl low ↦ absurd (omega (arith, low, e))
  | inr high ↦ absurd (omega (arith, high, e, le))
]

CopiedApart-suc :
    (m : Bytes) (d s n : ℕ)
    → CopiedApart m d s (suc n)
    → CopiedApart (first_put m d s) (d + 1) (s + 1) n
CopiedApart-suc m d s n c = record {
  bytes = λ i lt.
      rw (kept m d s i (beyond m d s n i c (omega (arith, lt))))
        (c.bytes (suc i) (omega (arith, lt)));
  end = kept m d s n (beyond m d s n n c (omega arith)) ∙ c.end;
  apart = elim (c.apart) [
    | inl low ↦ inl (omega (arith, low))
    | inr high ↦ inr (omega (arith, high))
  ];
}

-- The first byte and the copy of the others are the copy.
shifted :
    (n d s : ℕ) (m : Bytes) (b : ℕ)
    → CopiedApart m d s (suc n)
    → moved (d + 1) (s + 1) (suc n) (first_put m d s) b ≡ moved d s (suc (suc n)) m b
shifted n d s m b c = elim (Bool-cases (leb (d + 1) b && ltb b (d + 1 + suc n))) [
  | inl inside ↦
      let i : ℕ = b - (d + 1) in
      let le : i ≤ n = ground arith in
      let byte = kept m d s i (beyond m d s n i c le) in
      let e : s + suc i ≡ s + (b - d) = ground arith in
      let wide : (leb d b && ltb b (d + suc (suc n))) ≡ true = ground arith in
      rw (inside, wide, ← e) byte
  | inr outside ↦ rw outside (ground arith)
]

-- strcpy of a string of `n` bytes to a place that it does not overlap, with more fuel than `n`: it
-- comes to an end, with the n + 1 bytes of the string copied and nothing else changed.
pub strcpy-moved :
    (n fuel d s : ℕ) (m : Bytes)
    → CopiedApart m d s n
    → n < fuel
    → strcpy fuel d s m ≡ some (moved d s (suc n) m)
unfolding strcpy
strcpy-moved n zero d s m c enough = absurd (omega arith)
strcpy-moved zero (suc fuel) d s m c enough =
    let e : s + 0 ≡ s = omega arith in
    let end : m s ≡ 0 = rw e at c.end in rw end (ap some (fun_ext λ b. ground arith))
strcpy-moved (suc n) (suc fuel) d s m c enough =
    let e : s + 0 ≡ s = omega arith in
    let first : m s ≢ 0 = rw e at (c.bytes 0 (omega arith)) in
    let test : (m s == 0) ≡ false = ground arith in
    rw test (
      strcpy-moved n fuel (d + 1) (s + 1) (first_put m d s) (CopiedApart-suc m d s n c)
        (omega (arith, enough))
      ∙ ap some (fun_ext λ b. shifted n d s m b c))
