-- ===== src/User/Tests.antt =====
-- Calls of a user program, with a kernel that answers each one with the same number.
use pke.Base.{
  false, ℕ, ◌+◌, ◌*◌, ◌/◌, ◌^◌, ◌≡◌, ◌↔◌, refl, inl, arith, Cmd, ok, pure, ◌>>=◌, ◌%◌, List, [],
  ◌∷◌, Returns, some, if◌then◌else◌, ◌==◌,
}
use pke.Strings.Bytes.{Bytes}
use pke.Trap.Syscall.{sys_user_base}
use pke.Format.Spec.{formatted, piece}
use pke.Format.Truncation.{truncated}
use pke.User.Library.{do_user_call, printpa, printu}
use pke.User.Calls.{printpa_lem, printu_lem}

-- An address of the kernel's memory, whose upper half is not 0.
abbrev answer : List ℕ → Cmd Bytes ℕ
answer regs m = ok (5 * 2 ^ 32 + 7) m

-- The format "ok" at 100.
abbrev words : Bytes
words = λ b. if b == 100 then 111 else if b == 101 then 107 else 0

printpa_lem_example :
    Returns
      (λ r u. ((r ≡ 5 * 2 ^ 32 + 7) ↔ (0 / 2 ^ 32 ≡ 5)) × (u ≡ words))
      (printpa answer 0 4096 words)
printpa_lem_example = printpa_lem answer 0 4096 (5 * 2 ^ 32 + 7) words words refl

formatted_ok : formatted 256 0 (111 ∷ 107 ∷ []) false false [] ≡ some (111 ∷ 107 ∷ [])
unfolding formatted piece
formatted_ok = refl

printu_lem_example :
    printu answer 0 3 1000 100 [] words
    ≡ (do_user_call answer 0 sys_user_base 1000 2 0 0 0 0 0 >>= λ x. pure (x % 2 ^ 32))
        (truncated 1000 256 (111 ∷ 107 ∷ []) words)
printu_lem_example =
    printu_lem answer 0 3 1000 100 words (111 ∷ 107 ∷ []) [] [] (111 ∷ 107 ∷ []) formatted_ok
      (omega arith)
      (
        inl (omega arith),
        refl,
        (λ e. cc),
        (inl (omega arith), refl, (λ e. cc), (inl (omega arith), refl)),
      )
      (omega arith) tt
