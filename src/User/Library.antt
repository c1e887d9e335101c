-- ===== src/User/Library.antt =====
-- The system calls and printu of user/user_lib.c.
use pke.Base.{
  ℕ, ◌+◌, ◌*◌, ◌/◌, ◌%◌, ◌^◌, Cmd, halt, spinning, pure, ◌>>=◌, List, [], ◌∷◌, if◌then◌else◌, ltb,
  none, some,
}
use pke.Strings.Bytes.{Bytes}
use pke.Trap.Syscall.{sys_user_base}
use pke.Format.Printer.{vsnprintf}

-- `ecall`: the trap with the registers a0 to a7, which gives the value of a0 after it, and may
-- change the memory of the program. `stale`: what the slot of the local variable `ret` holds
-- before.
module _ (ecall : List ℕ → Cmd Bytes ℕ) (stale : ℕ) where
  -- `sw a0, %0` stores the lower half of `ret`.
  unfoldable pub do_user_call : ℕ → ℕ → ℕ → ℕ → ℕ → ℕ → ℕ → ℕ → Cmd Bytes ℕ
  do_user_call sysnum a1 a2 a3 a4 a5 a6 a7 = do
    a0 ← ecall (sysnum ∷ a1 ∷ a2 ∷ a3 ∷ a4 ∷ a5 ∷ a6 ∷ a7 ∷ [])
    pure (stale / 2 ^ 32 * 2 ^ 32 + a0 % 2 ^ 32)

  -- The result as an `int`.
  abbrev int_of : ℕ → Cmd Bytes ℕ
  int_of r = pure (r % 2 ^ 32)

  abbrev call : ℕ → ℕ → Cmd Bytes ℕ
  call sysnum a1 = do_user_call sysnum a1 0 0 0 0 0 0

  unfoldable pub exit : ℕ → Cmd Bytes ℕ
  exit code = do r ← call (sys_user_base + 1) code; int_of r

  unfoldable pub naive_malloc : Cmd Bytes ℕ
  naive_malloc = call (sys_user_base + 2) 0

  unfoldable pub naive_free : ℕ → Cmd Bytes (Unit {0})
  naive_free va = do r ← call (sys_user_base + 3) va; pure tt

  unfoldable pub fork : Cmd Bytes ℕ
  fork = do r ← call (sys_user_base + 4) 0; int_of r

  unfoldable pub yield : Cmd Bytes (Unit {0})
  yield = do r ← call (sys_user_base + 5) 0; pure tt

  unfoldable pub sem_new : ℕ → Cmd Bytes ℕ
  sem_new value = do r ← call (sys_user_base + 10) value; int_of r

  unfoldable pub sem_p : ℕ → Cmd Bytes (Unit {0})
  sem_p sem_id = do r ← call (sys_user_base + 11) sem_id; pure tt

  unfoldable pub sem_v : ℕ → Cmd Bytes (Unit {0})
  sem_v sem_id = do r ← call (sys_user_base + 12) sem_id; pure tt

  unfoldable pub printpa : ℕ → Cmd Bytes ℕ
  printpa va = call (sys_user_base + 13) va

  -- `out`: the address of the buffer of 256 bytes; `fuel` is vsnprintf's.
  unfoldable pub printu : ℕ → ℕ → ℕ → List ℕ → Cmd Bytes ℕ
  printu fuel out s vl m = elim (vsnprintf out 256 fuel s vl m) [
    | none ↦ halt spinning
    | some r ↦
        let n : ℕ = if ltb (r.1) 256 then r.1 else 256 in
        (do x ← do_user_call (sys_user_base + 0) out n 0 0 0 0 0; int_of x) r.0
  ]
