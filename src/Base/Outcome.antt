-- ===== src/Base/Outcome.antt =====
-- What a kernel function does to a state: it returns, it leaves for user mode, or it stops.
use mathlib.Core.Path.{◌≡◌, refl, subst}
use mathlib.Core.Bool.{Bool, true, false}
use mathlib.Core.Option.{Option, none, some}
use pke.Base.Tests.{if◌then◌else◌}

-- `panicked`: panic, assert or kassert, which print and power the machine off.
-- `spinning`: a lock that is never released is waited for, so control never comes back.
-- `faulted`: an access outside an array or through a null pointer, undefined in C.
-- `shut_down`: the machine is switched off on purpose.
pub data Halt : Type 0 where
  panicked spinning faulted shut_down : Halt

pub data Run (S A : Type 0) : Type 0 where
  ok : A → S → Run S A
  -- `return_to_user`: the kernel function that was running never gets control back.
  to_user : S → Run S A
  halt : Halt → Run S A

abbrev pub Cmd : Type 0 → Type 0 → Type 0
Cmd S A = S → Run S A

module _ {S : Type 0} where
  abbrev pub pure : {A : Type 0} → A → Cmd S A
  pure a s = ok a s

  abbrev pub stop : {A : Type 0} → Halt → Cmd S A
  stop h s = halt h

  abbrev pub get : Cmd S S
  get s = ok s s

  abbrev pub put : S → Cmd S (Unit {0})
  put t s = ok tt t

  abbrev pub modify : (S → S) → Cmd S (Unit {0})
  modify f s = ok tt (f s)

  abbrev pub and_then : {A B : Type 0} → Run S A → (A → Cmd S B) → Run S B
  and_then (ok a s) k = k a s
  and_then (to_user s) k = to_user s
  and_then (halt h) k = halt h

  infixl 5 ◌>>=◌ ◌>>◌
  abbrev pub ◌>>=◌ : {A B : Type 0} → Cmd S A → (A → Cmd S B) → Cmd S B
  m >>= k = λ s. and_then (m s) k

  abbrev pub ◌>>◌ : {B : Type 0} → Cmd S (Unit {0}) → Cmd S B → Cmd S B
  m >> n = m >>= λ _. n

  -- `if (!(b)) <stop>`.
  abbrev pub ensure : Bool → Halt → Cmd S (Unit {0})
  ensure true h s = ok tt s
  ensure false h s = halt h

  -- Total correctness: the run returns, in a state and with a value that satisfy `P`.
  pub data Returns {A : Type 0} (P : A → S → Type 0) : Run S A → Type 0 where
    returns : {a : A} {s : S} → P a s → Returns P (ok a s)

  pub Returns-bind :
      {A B : Type 0} {P : A → S → Type 0} {Q : B → S → Type 0} {r : Run S A} {k : A → Cmd S B}
      → Returns P r
      → ((a : A) (s : S) → P a s → Returns Q (k a s))
      → Returns Q (and_then r k)
  Returns-bind (returns p) next = next _ _ p

  pub Returns-mono :
      {A : Type 0} {P Q : A → S → Type 0} {r : Run S A}
      → Returns P r
      → ((a : A) (s : S) → P a s → Q a s)
      → Returns Q r
  Returns-mono (returns p) weaken = returns (weaken _ _ p)

  pub Returns-eq_ok :
      {A : Type 0} {P : A → S → Type 0} {r : Run S A}
      → Returns P r
      → (a : A) × (s : S) × (r ≡ ok a s) × P a s
  Returns-eq_ok (returns {a} {s} p) = (a, s, refl, p)

  -- The run leaves for user mode, in a state that satisfies `P`.
  pub data Leaves {A : Type 0} (P : S → Type 0) : Run S A → Type 0 where
    leaves : {s : S} → P s → Leaves P (to_user s)

  pub Leaves-then :
      {A B : Type 0} {P Q : S → Type 0} {r : Run S A} (k : A → Cmd S B)
      → Leaves P r
      → ((s : S) → P s → Q s)
      → Leaves Q (and_then r k)
  Leaves-then k (leaves p) weaken = leaves (weaken _ p)

  -- Control does not come back to the caller.
  pub data NoReturn {A : Type 0} : Run S A → Type 0 where
    left : {s : S} → NoReturn (to_user s)
    halted : {h : Halt} → NoReturn (halt h)

  pub NoReturn-bind :
      {A B : Type 0} (r : Run S A) (k : A → Cmd S B)
      → ((a : A) (s : S) → NoReturn (k a s))
      → NoReturn (and_then r k)
  NoReturn-bind (ok a s) k next = next a s
  NoReturn-bind (to_user s) k next = left
  NoReturn-bind (halt h) k next = halted

  pub NoReturn-then :
      {A B : Type 0} {r : Run S A} (k : A → Cmd S B) → NoReturn r → NoReturn (and_then r k)
  NoReturn-then k left = left
  NoReturn-then k halted = halted

  -- Partial correctness: if the run returns, its state and value satisfy `P`.
  pub data Partly {A : Type 0} (P : A → S → Type 0) : Run S A → Type 0 where
    partly : {a : A} {s : S} → P a s → Partly P (ok a s)
    gone : {r : Run S A} → NoReturn r → Partly P r

  pub Partly-bind :
      {A B : Type 0} {P : A → S → Type 0} {Q : B → S → Type 0} {r : Run S A} {k : A → Cmd S B}
      → Partly P r
      → ((a : A) (s : S) → P a s → Partly Q (k a s))
      → Partly Q (and_then r k)
  Partly-bind (partly p) next = next _ _ p
  Partly-bind {k = k} (gone never) next = gone (NoReturn-then k never)

  pub Partly-mono :
      {A : Type 0} {P Q : A → S → Type 0} {r : Run S A}
      → Partly P r
      → ((a : A) (s : S) → P a s → Q a s)
      → Partly Q r
  Partly-mono (partly p) weaken = partly (weaken _ _ p)
  Partly-mono (gone never) weaken = gone never

  -- A run that cannot return does not.
  pub Partly-NoReturn : {A : Type 0} {r : Run S A} → Partly (λ a s. ⊥) r → NoReturn r
  Partly-NoReturn (partly p) = absurd p
  Partly-NoReturn (gone never) = never

  -- A run that returns with both.
  pub Returns-Partly :
      {A : Type 0} {P Q : A → S → Type 0} {r : Run S A}
      → Returns P r
      → Partly Q r
      → Returns (λ a s. P a s × Q a s) r
  Returns-Partly (returns p) (partly q) = returns (p, q)
  Returns-Partly (returns p) (gone never) = elim never [ ]

  -- Wherever the run gets control out of, the state satisfies `P`.
  pub data Always {A : Type 0} (P : S → Type 0) : Run S A → Type 0 where
    fine : {a : A} {s : S} → P s → Always P (ok a s)
    away : {s : S} → P s → Always P (to_user s)
    stopped : {h : Halt} → Always P (halt h)

  pub Always-bind :
      {A B : Type 0} {P : S → Type 0} {r : Run S A} {k : A → Cmd S B}
      → Always P r
      → ((a : A) (s : S) → P s → Always P (k a s))
      → Always P (and_then r k)
  Always-bind (fine p) next = next _ _ p
  Always-bind (away p) next = away p
  Always-bind stopped next = stopped

  pub Always-mono :
      {A : Type 0} {P Q : S → Type 0} {r : Run S A}
      → Always P r
      → ((s : S) → P s → Q s)
      → Always Q r
  Always-mono (fine p) weaken = fine (weaken _ p)
  Always-mono (away p) weaken = away (weaken _ p)
  Always-mono stopped weaken = stopped

  pub Always-if :
      {A : Type 0} {P : S → Type 0} (b : Bool) (m n : Cmd S A) (s : S)
      → Always P (m s)
      → Always P (n s)
      → Always P ((if b then m else n) s)
  Always-if true m n s p q = p
  Always-if false m n s p q = q

  pub Always-cases :
      {A : Type 0} {P : S → Type 0} (b : Bool) (r t : Run S A)
      → Always P r
      → Always P t
      → Always P (elim b [ true ↦ r | false ↦ t ])
  Always-cases true r t p q = p
  Always-cases false r t p q = q

  pub Always-some :
      {A B : Type 0} {P : S → Type 0} (o : Option A) (h : Halt) (f : A → Run S B)
      → ((a : A) → o ≡ some a → Always P (f a))
      → Always P (elim o [ none ↦ halt h | some a ↦ f a ])
  Always-some none h f next = stopped
  Always-some (some a) h f next = next a refl

  pub Always-ensure : {P : S → Type 0} (b : Bool) (h : Halt) (s : S) → P s → Always P (ensure b h s)
  Always-ensure true h s p = fine p
  Always-ensure false h s p = stopped

  -- The rule for a command whose value is known too.
  pub Always-Partly-bind :
      {A B : Type 0} {Q P : S → Type 0} {V : A → S → Type 0} {r : Run S A} {k : A → Cmd S B}
      → Always Q r
      → Partly V r
      → ((s : S) → Q s → P s)
      → ((a : A) (s : S) → Q s → V a s → Always P (k a s))
      → Always P (and_then r k)
  Always-Partly-bind (fine q) (partly v) weaken next = next _ _ q v
  Always-Partly-bind (fine q) (gone never) weaken next = elim never [ ]
  Always-Partly-bind (away q) v weaken next = away (weaken _ q)
  Always-Partly-bind stopped v weaken next = stopped

  pub Partly-any : {A : Type 0} (r : Run S A) → Partly (λ _ _. Unit {0}) r
  Partly-any (ok a s) = partly tt
  Partly-any (to_user s) = gone left
  Partly-any (halt h) = gone halted

  pub Leaves-Always :
      {A : Type 0} {P Q : S → Type 0} {r : Run S A}
      → Leaves P r
      → ((s : S) → P s → Q s)
      → Always Q r
  Leaves-Always (leaves p) weaken = away (weaken _ p)

  pub Returns-Always :
      {A : Type 0} {P : A → S → Type 0} {Q : S → Type 0} {r : Run S A}
      → Returns P r
      → ((a : A) (s : S) → P a s → Q s)
      → Always Q r
  Returns-Always (returns p) weaken = fine (weaken _ _ p)

  pub Returns-bind_Always :
      {A B : Type 0} {V : A → S → Type 0} {P : S → Type 0} {r : Run S A} {k : A → Cmd S B}
      → Returns V r
      → ((a : A) (s : S) → V a s → Always P (k a s))
      → Always P (and_then r k)
  Returns-bind_Always (returns v) next = next _ _ v

  pub Always-to_user :
      {A : Type 0} {P : S → Type 0} {r : Run S A} {t : S} → Always P r → r ≡ to_user t → P t
  Always-to_user (fine p) e = cc
  Always-to_user {P = P} (away p) e = subst P (cc) p
  Always-to_user stopped e = cc
