-- ===== src/User/Calls.antt =====
-- What the calls of the user library give back, and what printu hands to the kernel.
use pke.Base.{
  ℕ, ◌+◌, ◌/◌, ◌%◌, ◌^◌, ◌<◌, ◌≡◌, ◌↔◌, refl, min, false, Cmd, ok, ◌>>=◌, pure, List, [], ◌∷◌,
  length, arith, some, Returns, returns, ltb, if◌then◌else◌,
}
use pke.Strings.Bytes.{Bytes}
use pke.Trap.Syscall.{sys_user_base}
use pke.Format.Spec.{Arg, formatted}
use pke.Format.Convert.{StringAt, Passed}
use pke.Format.Truncation.{truncated, vsnprintf-truncated}
use pke.User.Library.{do_user_call, printpa, printu}

module _ (ecall : List ℕ → Cmd Bytes ℕ) (stale : ℕ) where
  -- printpa, when the trap returns a 64-bit number: its result is this number exactly when the slot
  -- of the local variable `ret` held the upper half of the number before the call.
  pub printpa_lem :
      (va a0 : ℕ) (m t : Bytes)
      → ecall ((sys_user_base + 13) ∷ va ∷ 0 ∷ 0 ∷ 0 ∷ 0 ∷ 0 ∷ 0 ∷ []) m ≡ ok a0 t
      → Returns
          (λ r u. ((r ≡ a0) ↔ (stale / 2 ^ 32 ≡ a0 / 2 ^ 32)) × (u ≡ t))
          (printpa ecall stale va m)
  unfolding printpa do_user_call
  printpa_lem va a0 m t trap =
      rw trap (returns ((λ e. omega (arith, e), λ e. omega (arith, e)), refl))

  -- printu of a format whose text for the arguments is `t`, below 2 ^ 31 bytes long, when the
  -- format and the strings lie outside its buffer and the fuel is larger than each of them: it
  -- makes the print call with the buffer and the number of bytes of the text, 256 at most, and the
  -- memory then holds the text in the buffer, cut to 255 bytes, with a 0 behind it.
  pub printu_lem :
      (fuel out s : ℕ) (m : Bytes) (fs : List ℕ) (args : List Arg) (ws t : List ℕ)
      → formatted 256 0 fs false false args ≡ some t
      → length t < 2 ^ 31
      → StringAt out 256 m s fs
      → length fs < fuel
      → Passed out 256 m fuel args ws
      → printu ecall stale fuel out s ws m
        ≡ (do_user_call ecall stale sys_user_base out (min (length t) 256) 0 0 0 0 0 >>= λ x.
              pure (x % 2 ^ 32))
            (truncated out 256 t m)
  unfolding printu
  printu_lem fuel out s m fs args ws t e fits at enough passed =
      let done =
        vsnprintf-truncated out 256 fuel s m fs args ws t e (omega (arith, fits)) at enough
          passed in
      let size : length t % 2 ^ 32 ≡ length t = omega (arith, fits) in
      let n : (if ltb (length t) 256 then length t else 256) ≡ min (length t) 256 = ground arith in
      rw (printu, done, size, n) refl
