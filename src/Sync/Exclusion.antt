-- ===== src/Sync/Exclusion.antt =====
-- Mutual exclusion of the spinlock of kernel/sync_utils.c.
use pke.Base.{ℕ, ◌≡◌, refl, arith}
use pke.Sync.Atomic.{Place, Harts, Step, Reachable, atomic_swap, atomic_set_release}

-- Whoever is inside, the word is 1 and no other hart is.
pub record Exclusive (s : Harts) : Type 0 where
  pub held : (h : ℕ) → s.place h ≡ Place.inside → s.word ≡ 1
  pub alone : (g h : ℕ) → s.place g ≡ Place.inside → s.place h ≡ Place.inside → g ≡ h

Step-Exclusive : {h : ℕ} {s t : Harts} → Step h s t → Exclusive s → Exclusive t
unfolding atomic_swap atomic_set_release
Step-Exclusive {h} {s} (Step.enter at) e = record {
  held = λ g i. ground (arith, e.held g);
  alone = λ g g' i j. ground (arith, e.alone g g');
}
Step-Exclusive {h} {s} (Step.seen_free at free) e = record {
  held = λ g i. ground (arith, e.held g);
  alone = λ g g' i j. ground (arith, e.alone g g');
}
Step-Exclusive {h} {s} (Step.seen_held at held) e = record {
  held = λ g i. ground (arith, e.held g);
  alone = λ g g' i j. ground (arith, e.alone g g');
}
Step-Exclusive {h} {s} (Step.won at free) e = record {
  held = λ g i. refl;
  alone = λ g g' i j. ground (arith, e.held g, e.held g');
}
Step-Exclusive {h} {s} (Step.lost at taken) e = record {
  held = λ g i. refl;
  alone = λ g g' i j. ground (arith, e.alone g g');
}
Step-Exclusive {h} {s} (Step.leave at) e = record {
  held = λ g i. ground (arith, e.alone g h);
  alone = λ g g' i j. ground (arith, e.alone g g');
}

Reachable-Exclusive : {s : Harts} → Reachable s → Exclusive s
Reachable-Exclusive Reachable.start = record { held = λ h i. cc; alone = λ g h i j. cc }
Reachable-Exclusive (Reachable.step r one) = Step-Exclusive one (Reachable-Exclusive r)

-- Whatever steps the harts take, in any order: two harts that are between lock_acquire and
-- lock_release are the same hart, and the lock word is 1 then.
pub mutual_exclusion :
    (s : Harts) (g h : ℕ)
    → Reachable s
    → s.place g ≡ Place.inside
    → s.place h ≡ Place.inside
    → (g ≡ h) × (s.word ≡ 1)
mutual_exclusion s g h r i j = let e = Reachable-Exclusive r in (e.alone g h i j, e.held g i)
