-- ===== src/Sync/Atomic.antt =====
-- The atomic operations of kernel/sync_utils.c on one word: what they return and what they leave.
use pke.Base.{◌≡◌, ◌≢◌, ℕ, ◌+◌, ◌%◌, ◌^◌, ◌==◌, Bool, true, false, if◌then◌else◌}

unfoldable pub atomic_add : ℕ → ℕ → ℕ
atomic_add word delta = (word + delta) % 2 ^ 64

unfoldable pub atomic_fetch_add : ℕ → ℕ → ℕ × ℕ
atomic_fetch_add word delta = (word, (word + delta) % 2 ^ 64)

unfoldable pub atomic_swap : ℕ → ℕ → ℕ × ℕ
atomic_swap word new_val = (word, new_val)

unfoldable pub atomic_set_release : ℕ → ℕ → ℕ
atomic_set_release word val = val

-- The store-conditional is tried until it succeeds.
unfoldable pub atomic_cas_d : ℕ → ℕ → ℕ → Bool × ℕ
atomic_cas_d word expected new_val = if word == expected then (true, new_val) else (false, word)

-- On a word of 32 bits; declared without a result.
unfoldable pub atomic_cas_w : ℕ → ℕ → ℕ → ℕ
atomic_cas_w word expected new_val = if word == expected then new_val else word

-- Where a hart stands in lock_acquire, in between, or behind it.
pub data Place : Type 0 where
  outside testing swapping inside : Place

-- The lock word and the place of each hart.
pub record Harts : Type 0 where
  pub word : ℕ
  pub place : ℕ → Place

abbrev pub at_place : Harts → ℕ → ℕ → Place → Harts
at_place s h word p = record { word = word; place = λ g. if g == h then p else s.place g }

-- One step of hart `h`: the call, the two tests of the loop in lock_acquire, and lock_release.
pub data Step (h : ℕ) (s : Harts) : Harts → Type 0 where
  enter : s.place h ≡ outside → Step h s (at_place s h s.word testing)
  seen_free : s.place h ≡ testing → s.word ≡ 0 → Step h s (at_place s h s.word swapping)
  seen_held : s.place h ≡ testing → s.word ≢ 0 → Step h s (at_place s h s.word testing)
  won :
      s.place h ≡ swapping
      → (atomic_swap s.word 1).0 ≡ 0
      → Step h s (at_place s h (atomic_swap s.word 1).1 inside)
  lost :
      s.place h ≡ swapping
      → (atomic_swap s.word 1).0 ≢ 0
      → Step h s (at_place s h (atomic_swap s.word 1).1 testing)
  leave : s.place h ≡ inside → Step h s (at_place s h (atomic_set_release s.word 0) outside)

-- All harts are outside and the lock is free; then any harts take steps in any order.
pub data Reachable : Harts → Type 0 where
  start : Reachable (record { word = 0; place = λ h. outside })
  step : {h : ℕ} {s t : Harts} → Reachable s → Step h s t → Reachable t
