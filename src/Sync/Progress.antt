-- ===== src/Sync/Progress.antt =====
-- The spinlock of kernel/sync_utils.c is never held by nobody, and lets a waiting hart in.
use pke.Base.{ℕ, ◌≡◌, ◌≢◌, ◌⊎◌, inl, inr, refl, sym, ◌∙◌, ◌==◌, Bool-cases, ==_refl, ==_iff}
use pke.Sync.Atomic.{Place, Harts, Step, Reachable, at_place, atomic_swap, atomic_set_release}

-- The word is 0, or it is 1 and a hart is inside.
abbrev pub Owned : Harts → Type 0
Owned s = (s.word ≡ 0) ⊎ ((s.word ≡ 1) × (h : ℕ) × (s.place h ≡ Place.inside))

-- A hart that is inside stays there while another one moves.
stays :
    (s : Harts) (g h word : ℕ) (p : Place)
    → s.place g ≡ Place.inside
    → s.place h ≢ Place.inside
    → (at_place s h word p).place g ≡ Place.inside
stays s g h word p inside other = elim (Bool-cases (g == h)) [
  | inl same ↦ absurd (other (let e : g ≡ h = (==_iff g h).0 same in rw e at inside))
  | inr apart ↦ rw apart inside
]

Owned-moved :
    (s : Harts) (h : ℕ) (p : Place)
    → s.place h ≢ Place.inside
    → Owned s
    → Owned (at_place s h s.word p)
Owned-moved s h p other (inl free) = inl free
Owned-moved s h p other (inr (held, g, inside)) = inr (held, g, stays s g h s.word p inside other)

not_inside : (p q : Place) → p ≡ q → (q ≡ Place.inside → ⊥) → p ≢ Place.inside
not_inside p q e other inside = other (sym e ∙ inside)

Step-Owned : {h : ℕ} {s t : Harts} → Step h s t → Owned s → Owned t
unfolding atomic_swap atomic_set_release
Step-Owned {h} {s} (Step.enter at) o = Owned-moved s h _ (not_inside _ _ at λ e. cc) o
Step-Owned {h} {s} (Step.seen_free at free) o = Owned-moved s h _ (not_inside _ _ at λ e. cc) o
Step-Owned {h} {s} (Step.seen_held at held) o = Owned-moved s h _ (not_inside _ _ at λ e. cc) o
Step-Owned {h} {s} (Step.won at free) o = inr (refl, h, rw (==_refl h) refl)
Step-Owned {h} {s} (Step.lost at taken) (inl free) = absurd (taken free)
Step-Owned {h} {s} (Step.lost at taken) (inr (held, g, inside)) =
    inr (refl, g, stays s g h 1 _ inside (not_inside _ _ at λ e. cc))
Step-Owned {h} {s} (Step.leave at) o = inl refl

Reachable-Owned : {s : Harts} → Reachable s → Owned s
Reachable-Owned Reachable.start = inl refl
Reachable-Owned (Reachable.step r one) = Step-Owned one (Reachable-Owned r)

-- Steps of one hart, the others standing still.
pub data Alone (h : ℕ) : Harts → Harts → Type 0 where
  rest : {s : Harts} → Alone h s s
  move : {s t u : Harts} → Step h s t → Alone h t u → Alone h s u

-- What a waiting hart can do by itself.
abbrev pub GetsIn : ℕ → Harts → Type 0
GetsIn h s = (t : Harts) × Alone h s t × (t.place h ≡ Place.inside)

swapping-GetsIn : (h : ℕ) (s : Harts) → s.place h ≡ Place.swapping → s.word ≡ 0 → GetsIn h s
unfolding atomic_swap
swapping-GetsIn h s at free =
    (at_place s h 1 Place.inside, Alone.move (Step.won at free) Alone.rest, rw (==_refl h) refl)

testing-GetsIn : (h : ℕ) (s : Harts) → s.place h ≡ Place.testing → s.word ≡ 0 → GetsIn h s
testing-GetsIn h s at free =
    let (t, alone, inside) =
      swapping-GetsIn h (at_place s h s.word Place.swapping) (rw (==_refl h) refl) free in
    (t, Alone.move (Step.seen_free at free) alone, inside)

-- In every state that the harts reach: a hart is between lock_acquire and lock_release, or every
-- hart that waits in lock_acquire gets in by steps of its own.
pub waiting-GetsIn :
    (s : Harts)
    → Reachable s
    → ((g : ℕ) × (s.place g ≡ Place.inside))
      ⊎ ((h : ℕ) → (s.place h ≡ Place.testing) ⊎ (s.place h ≡ Place.swapping) → GetsIn h s)
waiting-GetsIn s r = elim (Reachable-Owned r) [
  | inl free ↦ inr λ h waits. elim waits [
    | inl at ↦ testing-GetsIn h s at free
    | inr at ↦ swapping-GetsIn h s at free
  ]
  | inr (held, g, inside) ↦ inl (g, inside)
]
