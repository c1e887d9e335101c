-- ===== src/Strings/Tests.antt =====
-- Runs of the string functions.
use pke.Base.{inr, arith, ℕ, ◌≡◌, ◌+◌, ◌<◌, ◌≤◌, ◌⊎◌, refl, some}
use pke.Strings.Bytes.{memcpy, Bytes, memmove, safestrcpy, strcpy}
use pke.Strings.Copies.{memcpy-moved, moved, filled, memmove-moved, safestrcpy-bounds}
use pke.Strings.Ends.{strcpy-moved}

-- Ten bytes `A` from 100 on, zero elsewhere.
abbrev letters : Bytes
letters = filled 100 65 10 λ b. 0

memmove-moved_example : memmove 103 100 8 letters ≡ moved 103 100 8 letters
memmove-moved_example = memmove-moved 103 100 8 letters

memcpy-moved_example : memcpy 208 104 19 letters ≡ moved 208 104 19 letters
memcpy-moved_example = memcpy-moved 208 104 19 letters (inr (omega arith))

safestrcpy-bounds_example :
    ((b : ℕ) → (b < 200) ⊎ (200 + 4 ≤ b) → safestrcpy 200 100 4 letters b ≡ letters b)
    × ((i : ℕ) × (i < 4) × (safestrcpy 200 100 4 letters (200 + i) ≡ 0))
safestrcpy-bounds_example = safestrcpy-bounds 4 200 100 letters (omega arith)

strcpy-moved_example : strcpy 50 300 100 letters ≡ some (moved 300 100 11 letters)
strcpy-moved_example =
    strcpy-moved 10 50 300 100 letters
      (record {
        bytes = λ i lt.
            (let e : letters (100 + i) ≡ 65 = ground arith in λ z. absurd (omega (arith, e, z)));
        end = refl;
        apart = inr (omega arith);
      })
      (omega arith)
