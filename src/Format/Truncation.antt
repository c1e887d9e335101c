-- ===== src/Format/Truncation.antt =====
-- vsnprintf leaves the text of the format in the buffer, cut to the room there, and a 0 behind it.
use pke.Base.{
  min, not, ℕ, zero, suc, ◌+◌, ◌-◌, ◌%◌, ◌^◌, ◌<◌, ◌≡◌, ◌≢◌, refl, ap, ◌∙◌, sym, Bool, false, ◌==◌,
  ltb, leb, ◌&&◌, if◌then◌else◌, List, [], ◌∷◌, ◌++◌, length, length-append, arith, inl, inr,
  fun_ext, Option, none, some,
}
use mathlib.Core.List.{append_assoc, append-nil}
use pke.Strings.Bytes.{Bytes}
use pke.Format.Printer.{Printer, Round, round, print_loop, terminate, vsnprintf}
use pke.Format.Spec.{Arg, Piece, piece, formatted}
use pke.Format.Digits.{printed_of, nth, printed}
use pke.Format.Convert.{Holds, Option-cases, after, written-Outside, round-Prints, StringAt, Passed}

formatted-end :
    (n pos : ℕ) (format longarg : Bool) (args : List Arg)
    → formatted n pos [] format longarg args ≡ some []
unfolding formatted
formatted-end n pos format longarg args = refl

module _ (n pos c : ℕ) (fs : List ℕ) (format longarg : Bool) (args : List Arg) where
  formatted-stuck :
      piece (ltb (pos + 1) n) c format longarg args ≡ none
      → formatted n pos (c ∷ fs) format longarg args ≡ none
  unfolding formatted
  formatted-stuck e = rw (formatted, e) refl

  formatted-cut :
      (p : Piece)
      → piece (ltb (pos + 1) n) c format longarg args ≡ some p
      → formatted n (pos + length p.shown) fs p.format p.longarg p.rest ≡ none
      → formatted n pos (c ∷ fs) format longarg args ≡ none
  unfolding formatted
  formatted-cut p e e' = rw (formatted, e, e') refl

  formatted-more :
      (p : Piece) (t : List ℕ)
      → piece (ltb (pos + 1) n) c format longarg args ≡ some p
      → formatted n (pos + length p.shown) fs p.format p.longarg p.rest ≡ some t
      → formatted n pos (c ∷ fs) format longarg args ≡ some (p.shown ++ t)
  unfolding formatted
  formatted-more p t e e' = rw (formatted, e, e') refl

module _ (out n : ℕ) (m : Bytes) where
  print_loop-end :
      (fuel rounds s : ℕ) (format longarg : Bool) (st : Printer)
      → st.mem s ≡ 0
      → print_loop out n fuel (suc rounds) s format longarg st ≡ some st
  unfolding print_loop
  print_loop-end fuel rounds s format longarg st end = rw (print_loop, end) refl

  print_loop-step :
      (fuel rounds s : ℕ) (format longarg : Bool) (st : Printer) (c : ℕ) (r : Round)
      → st.mem s ≡ c
      → c ≢ 0
      → round out n fuel c format longarg st ≡ some r
      → print_loop out n fuel (suc rounds) s format longarg st
        ≡ print_loop out n fuel rounds (s + 1) r.format r.longarg r.printer
  unfolding print_loop
  print_loop-step fuel rounds s format longarg st c r here more step =
      let test : (c == 0) ≡ false = ground arith in rw (print_loop, here, test, here, step) refl

  -- What the rest of the loop prints behind `t`.
  abbrev Finishes : List ℕ → Option Printer → List ℕ → Type 0
  Finishes t r rest =
      length t + length rest < 2 ^ 64 → (ws : List ℕ) × (r ≡ some (printed out n m (t ++ rest) ws))

  print_loop-Finishes :
      (fuel rounds s : ℕ) (fs : List ℕ) (format longarg : Bool) (t ws : List ℕ) (args : List Arg)
      → StringAt out n m s fs
      → length fs < rounds
      → Passed out n m fuel args ws
      → Holds
          (Finishes t (print_loop out n fuel rounds s format longarg (printed out n m t ws)))
          (formatted n (length t) fs format longarg args)
  print_loop-Finishes fuel zero s fs format longarg t ws args at enough passed =
      absurd (omega arith)
  print_loop-Finishes fuel (suc rounds) s [] format longarg t ws args (away, end) enough passed =
      rw (formatted-end n (length t) format longarg args) λ fits. (
        ws,
        print_loop-end fuel rounds s format longarg (printed out n m t ws)
              (written-Outside out n m t s away ∙ end)
            ∙ ap (λ (u : List ℕ). some (printed out n m u ws)) (sym (append-nil t)),
      )
  print_loop-Finishes fuel (suc rounds) s (c ∷ fs) format longarg t ws args (away, here, more, at)
        enough passed =
      elim (Option-cases (piece (ltb (length t + 1) n) c format longarg args)) [
        | inl e ↦ rw (formatted-stuck n (length t) c fs format longarg args e) tt
        | inr (pc, e) ↦
            let shown = rw e at (round-Prints out n m fuel c format longarg t ws args passed) in
            elim (Option-cases
              (formatted n (length t + length pc.shown) fs pc.format pc.longarg pc.rest)) [
                | inl e' ↦ rw (formatted-cut n (length t) c fs format longarg args pc e e') tt
                | inr (rest, e') ↦
                    rw (formatted-more n (length t) c fs format longarg args pc rest e e') λ fits.
                      let size : length (pc.shown ++ rest) ≡ length pc.shown + length rest =
                        length-append pc.shown rest in
                      let (ws', step, passed') = shown (omega (arith, fits, size)) in
                      let grown : length (t ++ pc.shown) ≡ length t + length pc.shown =
                        length-append t pc.shown in
                      let e'' : formatted n (length (t ++ pc.shown)) fs pc.format pc.longarg pc.rest
                          ≡ some rest =
                        rw grown e' in
                      let next = rw e'' at (
                        print_loop-Finishes fuel rounds (s + 1) fs pc.format pc.longarg
                          (t ++ pc.shown) ws' pc.rest at (omega (arith, enough)) passed') in
                      let (ws'', end) = next (omega (arith, fits, size, grown)) in
                      (
                        ws'',
                        print_loop-step fuel rounds s format longarg (printed out n m t ws) c
                              (after out n m t pc ws') (written-Outside out n m t s away ∙ here)
                              more step
                            ∙ end
                            ∙ ap (λ (u : List ℕ). some (printed out n m u ws''))
                                (append_assoc t pc.shown rest),
                      )
              ]
      ]

-- The bytes of the buffer after vsnprintf of `t`: the text as far as it fits before the last byte,
-- then a 0; all other bytes are as in `m`.
abbrev pub truncated : ℕ → ℕ → List ℕ → Bytes → Bytes
truncated out n t m = λ b.
    if b == out + min (length t) (n - 1) && not (n == 0)
    then 0
    else if leb out b && ltb b (out + min (length t) (n - 1))
    then nth t (b - out)
    else m b

terminate-truncated :
    (out n : ℕ) (t ws : List ℕ) (m : Bytes)
    → terminate out n (printed out n m t ws) ≡ (truncated out n t m, length t % 2 ^ 32)
unfolding terminate
terminate-truncated out n t ws m =
    ap (λ (f : Bytes). (f, length t % 2 ^ 32)) (fun_ext λ b. ground arith)

nothing_printed :
    (out n : ℕ) (m : Bytes) (ws : List ℕ)
    → ◌≡◌ {A = Printer} (record { mem = m; pos = 0; args = ws }) (printed out n m [] ws)
nothing_printed out n m ws = printed_of out n m [] ws m 0 (λ b. ground arith) refl

-- vsnprintf with a buffer of `n` bytes at `out`, on a format whose text for the arguments is `t`,
-- below 2 ^ 64 bytes long, when the format and the strings among the arguments lie outside the
-- buffer and the fuel is larger than the format and each of the strings: it returns the length of
-- the text as a 32-bit number, leaves the first n - 1 bytes of the text in the buffer, or all if
-- they are fewer, with a 0 behind them when n is not 0, and changes no other byte.
pub vsnprintf-truncated :
    (out n fuel s : ℕ) (m : Bytes) (fs : List ℕ) (args : List Arg) (ws t : List ℕ)
    → formatted n 0 fs false false args ≡ some t
    → length t < 2 ^ 64
    → StringAt out n m s fs
    → length fs < fuel
    → Passed out n m fuel args ws
    → vsnprintf out n fuel s ws m ≡ some (truncated out n t m, length t % 2 ^ 32)
unfolding vsnprintf
vsnprintf-truncated out n fuel s m fs args ws t e fits at enough passed =
    let finish =
      print_loop-Finishes out n m fuel fuel s fs false false [] ws args at enough passed in
    let (ws', end) = (rw e at finish) (omega (arith, fits)) in
    rw (vsnprintf, nothing_printed out n m ws, end) (ap some (terminate-truncated out n t ws' m))
