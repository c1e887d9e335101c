-- ===== src/Format/Convert.antt =====
-- What one round of vsnprintf prints.
use pke.Base.{
  ℕ, zero, suc, ◌+◌, ◌-◌, ◌%◌, ◌^◌, ◌≤◌, ◌<◌, ◌≡◌, ◌≢◌, ◌⊎◌, refl, ap, ◌∙◌, sym, Bool, true, false,
  ◌==◌, ltb, if◌then◌else◌, List, [], ◌∷◌, ◌++◌, length, length-append, arith, Bool-cases, inl, inr,
  Option, none, some,
}
use mathlib.Core.List.{append_assoc, append-nil}
use pke.Strings.Bytes.{Bytes}
use pke.Format.Printer.{
  done, Printer, Round, Conversion, long_flag, pointer, hex, decimal, string, char, other,
  conversion, as_long, put_char, put_signed, put_string, put_char_arg, convert, round, done_if,
}
use pke.Format.Spec.{
  shows_if, Arg, number, text, hex_text, decimal_text, signed_text, Piece, converted, piece,
}
use pke.Format.Digits.{
  printed_of, written-snoc, written, printed, put_char-printed, put_hex-printed,
  put_decimal-printed, length-hex_text,
}

abbrev pub Holds : {A : Type 0} → (A → Type 0) → Option A → Type 0
Holds P none = Unit {0}
Holds P (some a) = P a

pub Option-cases : {A : Type 0} (o : Option A) → (o ≡ none) ⊎ ((a : A) × (o ≡ some a))
Option-cases none = inl refl
Option-cases (some a) = inr (a, refl)

module _ (out n : ℕ) (m : Bytes) where
  -- An address that is not in the buffer.
  abbrev pub Outside : ℕ → Type 0
  Outside p = (p < out) ⊎ (out + n ≤ p)

  -- The string `bs` stands at `p` and ends with a 0, outside the buffer.
  abbrev pub StringAt : ℕ → List ℕ → Type 0
  StringAt p [] = Outside p × (m p ≡ 0)
  StringAt p (b ∷ bs) = Outside p × (m p ≡ b) × (b ≢ 0) × StringAt (p + 1) bs

  -- The slots `ws` hold the arguments; each string is shorter than the fuel.
  abbrev pub Passed : ℕ → List Arg → List ℕ → Type 0
  Passed fuel [] ws = Unit {0}
  Passed fuel (number v ∷ args) [] = ⊥
  Passed fuel (text bs ∷ args) [] = ⊥
  Passed fuel (number v ∷ args) (w ∷ ws) = (w ≡ v) × Passed fuel args ws
  Passed fuel (text bs ∷ args) (w ∷ ws) = StringAt w bs × (length bs < fuel) × Passed fuel args ws

  pub written-Outside : (t : List ℕ) (p : ℕ) → Outside p → written out n t m p ≡ m p
  written-Outside t p (inl h) = ground arith
  written-Outside t p (inr h) = ground arith

  put_string-printed :
      (fuel p : ℕ) (t ws bs : List ℕ)
      → StringAt p bs
      → length bs < fuel
      → length t + length bs < 2 ^ 64
      → put_string out n fuel p (printed out n m t ws) ≡ some (printed out n m (t ++ bs) ws)
  unfolding put_string
  put_string-printed zero p t ws bs at enough fits = absurd (omega arith)
  put_string-printed (suc fuel) p t ws [] (away, end) enough fits =
      rw (written-Outside t p away, end)
        (ap (λ (u : List ℕ). some (printed out n m u ws)) (sym (append-nil t)))
  put_string-printed (suc fuel) p t ws (b ∷ bs) (away, here, more, at) enough fits =
      let test : (b == 0) ≡ false = ground arith in
      rw
        (
          written-Outside t p away,
          here,
          test,
          put_char-printed out n m b t ws (omega (arith, fits)),
        )
        (put_string-printed fuel (p + 1) (t ++ (b ∷ [])) ws bs at (omega (arith, enough))
            (omega (arith, fits, length-append t (b ∷ [])))
          ∙ ap (λ (u : List ℕ). some (printed out n m u ws)) (append_assoc t (b ∷ []) bs))

  -- The state after a piece of the text.
  abbrev pub after : List ℕ → Piece → List ℕ → Round
  after t pc ws = record {
    format = pc.format;
    longarg = pc.longarg;
    printer = printed out n m (t ++ pc.shown) ws;
  }

  -- A round of vsnprintf prints the piece.
  abbrev pub Prints : ℕ → List ℕ → Option Round → Piece → Type 0
  Prints fuel t r pc =
      length t + length pc.shown < 2 ^ 64
      → (ws : List ℕ) × (r ≡ some (after t pc ws)) × Passed fuel pc.rest ws

  nothing_shown :
      (fuel : ℕ) (t ws : List ℕ) (args : List Arg) (f l : Bool)
      → Passed fuel args ws
      → Prints fuel t
          (some (record { format = f; longarg = l; printer = printed out n m t ws }))
          (record { shown = []; format = f; longarg = l; rest = args })
  nothing_shown fuel t ws args f l passed fits = (
    ws,
    ap (λ (u : List ℕ). some (record { format = f; longarg = l; printer = printed out n m u ws }))
        (sym (append-nil t)),
    passed,
  )

  signed-printed :
      (num : ℕ) (t ws : List ℕ)
      → Holds
          (λ d.
            length t + length d < 2 ^ 64
            → put_signed out n num (printed out n m t ws) ≡ some (printed out n m (t ++ d) ws))
          (signed_text num)
  unfolding put_signed signed_text
  signed-printed num t ws = elim (Bool-cases (num == 2 ^ 63)) [
    | inl least ↦ rw least tt
    | inr rest ↦ elim (Bool-cases (ltb (2 ^ 63) num)) [
      | inl negative ↦
          rw (rest, negative)
            λ fits.
              (rw
                (
                  put_char-printed out n m 45 t ws (omega (arith, fits)),
                  put_decimal-printed out n m (2 ^ 64 - num) (t ++ (45 ∷ [])) ws
                      (omega (arith, fits, length-append t (45 ∷ []))),
                )
                (ap (λ (u : List ℕ). some (printed out n m u ws))
                  (append_assoc t (45 ∷ []) (decimal_text 20 (2 ^ 64 - num)))))
      | inr natural ↦
          rw (rest, natural) λ fits. (rw (put_decimal-printed out n m num t ws fits) refl)
    ]
  ]

  decimal-Prints :
      (fuel num : ℕ) (t ws : List ℕ) (args : List Arg)
      → Passed fuel args ws
      → Holds
          (Prints fuel t (done_if (put_signed out n num (printed out n m t ws))))
          (shows_if (signed_text num) args)
  decimal-Prints fuel num t ws args passed = elim (Option-cases (signed_text num)) [
    | inl e ↦ rw e tt
    | inr (d, e) ↦
        let f = rw e at (signed-printed num t ws) in rw e λ fits. (ws, rw (f fits) refl, passed)
  ]

  full_buffer :
      (t ws : List ℕ) (c : ℕ)
      → ltb (length t + 1) n ≡ false
      → ◌≡◌ {A = Printer}
          (record { mem = written out n t m; pos = length t + 1; args = ws })
          (printed out n m (t ++ (c ∷ [])) ws)
  full_buffer t ws c full =
      printed_of out n m (t ++ (c ∷ [])) ws _ _ (λ b. rw full at (written-snoc out n m t c b))
        (sym (length-append t (c ∷ [])))

  char-Prints :
      (fuel : ℕ) (longarg : Bool) (t ws : List ℕ) (args : List Arg) (room : Bool)
      → ltb (length t + 1) n ≡ room
      → Passed fuel args ws
      → Holds
          (Prints fuel t (put_char_arg out n (printed out n m t ws)))
          (converted room char longarg args)
  unfolding put_char_arg
  char-Prints fuel longarg t ws args false full passed = λ fits.
      let e : (length t + 1) % 2 ^ 64 ≡ length t + 1 = omega (arith, fits) in
      (ws, rw (e, full) (ap (λ (p : Printer). some (done p)) (full_buffer t ws 0 full)), passed)
  char-Prints fuel longarg t ws [] true room passed = tt
  char-Prints fuel longarg t ws (text bs ∷ args) true room passed = tt
  char-Prints fuel longarg t [] (number v ∷ args) true room passed = absurd passed
  char-Prints fuel longarg t (w ∷ ws) (number v ∷ args) true room (same, passed) = λ fits.
      let e : (length t + 1) % 2 ^ 64 ≡ length t + 1 = omega (arith, fits) in
      (
        ws,
        rw (e, room, same, put_char-printed out n m (v % 256) t ws (omega (arith, fits))) refl,
        passed,
      )

  convert-Prints :
      (fuel : ℕ) (k : Conversion) (longarg : Bool) (t ws : List ℕ) (args : List Arg)
      → Passed fuel args ws
      → Holds
          (Prints fuel t (convert out n fuel k longarg (printed out n m t ws)))
          (converted (ltb (length t + 1) n) k longarg args)
  unfolding convert
  convert-Prints fuel long_flag longarg t ws args passed =
      nothing_shown fuel t ws args true true passed
  convert-Prints fuel other longarg t ws args passed =
      nothing_shown fuel t ws args true longarg passed
  convert-Prints fuel hex longarg t ws [] passed = tt
  convert-Prints fuel hex longarg t ws (text bs ∷ args) passed = tt
  convert-Prints fuel hex longarg t [] (number v ∷ args) passed = absurd passed
  convert-Prints fuel hex longarg t (w ∷ ws) (number v ∷ args) (e, passed) = λ fits. (
    ws,
    rw
        (
          e,
          put_hex-printed out n m (if longarg then 16 else 8) (as_long longarg v) t ws (
              omega (
                arith,
                fits,
                length-hex_text out n m (if longarg then 16 else 8) (as_long longarg v),
              )),
        )
        refl,
    passed,
  )
  convert-Prints fuel pointer longarg t ws [] passed = tt
  convert-Prints fuel pointer longarg t ws (text bs ∷ args) passed = tt
  convert-Prints fuel pointer longarg t [] (number v ∷ args) passed = absurd passed
  convert-Prints fuel pointer longarg t (w ∷ ws) (number v ∷ args) (e, passed) = λ fits.
      let start : List ℕ = t ++ (48 ∷ []) ++ (120 ∷ []) in
      let lead : put_char out n 120 (put_char out n 48 (printed out n m t (w ∷ ws)))
          ≡ printed out n m start (w ∷ ws) =
        rw
          (
            put_char-printed out n m 48 t (w ∷ ws) (omega (arith, fits)),
            put_char-printed out n m 120 (t ++ (48 ∷ [])) (w ∷ ws)
                (omega (arith, fits, length-append t (48 ∷ []))),
          )
          refl in
      (
        ws,
        rw
            (
              lead,
              e,
              put_hex-printed out n m 16 (as_long true v) start ws (
                  omega (
                    arith,
                    fits,
                    length-hex_text out n m 16 (as_long true v),
                    length-append t (48 ∷ []),
                    length-append (t ++ (48 ∷ [])) (120 ∷ []),
                  )),
            )
            (ap (λ (u : List ℕ). some (done (printed out n m u ws)))
              (append_assoc (t ++ (48 ∷ [])) (120 ∷ []) (hex_text 16 (as_long true v))
                ∙ append_assoc t (48 ∷ []) (120 ∷ hex_text 16 (as_long true v)))),
        passed,
      )
  convert-Prints fuel decimal longarg t ws [] passed = tt
  convert-Prints fuel decimal longarg t ws (text bs ∷ args) passed = tt
  convert-Prints fuel decimal longarg t [] (number v ∷ args) passed = absurd passed
  convert-Prints fuel decimal longarg t (w ∷ ws) (number v ∷ args) (e, passed) =
      rw e (decimal-Prints fuel (as_long longarg v) t ws args passed)
  convert-Prints fuel string longarg t ws [] passed = tt
  convert-Prints fuel string longarg t ws (number v ∷ args) passed = tt
  convert-Prints fuel string longarg t [] (text bs ∷ args) passed = absurd passed
  convert-Prints fuel string longarg t (w ∷ ws) (text bs ∷ args) (at, enough, passed) =
      λ fits. (ws, rw (put_string-printed fuel w t ws bs at enough fits) refl, passed)
  convert-Prints fuel char longarg t ws args passed =
      char-Prints fuel longarg t ws args (ltb (length t + 1) n) refl passed

  pub round-Prints :
      (fuel c : ℕ) (format longarg : Bool) (t ws : List ℕ) (args : List Arg)
      → Passed fuel args ws
      → Holds
          (Prints fuel t (round out n fuel c format longarg (printed out n m t ws)))
          (piece (ltb (length t + 1) n) c format longarg args)
  unfolding round piece
  round-Prints fuel c true longarg t ws args passed =
      convert-Prints fuel (conversion c) longarg t ws args passed
  round-Prints fuel c false longarg t ws args passed = elim (Bool-cases (c == 37)) [
    | inl percent ↦ rw percent (nothing_shown fuel t ws args true longarg passed)
    | inr plain ↦
        rw plain
          λ fits. (ws, rw (put_char-printed out n m c t ws (omega (arith, fits))) refl, passed)
  ]
