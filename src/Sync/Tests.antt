-- ===== src/Sync/Tests.antt =====
-- A run of two harts.
use pke.Base.{ℕ, ◌≡◌, refl, arith, ◌⊎◌}
use pke.Sync.Atomic.{Place, Harts, at_place, Step, Reachable, atomic_swap}
use pke.Sync.Progress.{GetsIn, waiting-GetsIn}
use pke.Sync.Exclusion.{mutual_exclusion}

abbrev at_start : Harts
at_start = record { word = 0; place = λ h. Place.outside }

abbrev both_in : Harts
both_in = at_place (at_place at_start 1 0 Place.testing) 2 0 Place.testing

-- Both see the lock free, hart 2 swaps first.
abbrev both_swap : Harts
both_swap = at_place (at_place both_in 1 0 Place.swapping) 2 0 Place.swapping

abbrev one_inside : Harts
one_inside = at_place (at_place both_swap 2 1 Place.inside) 1 1 Place.testing

both_swap-Reachable : Reachable both_swap
both_swap-Reachable =
    Reachable.step {h = 2}
      (Reachable.step {h = 1}
        (Reachable.step {h = 2} (Reachable.step {h = 1} Reachable.start (Step.enter refl))
          (Step.enter refl))
        (Step.seen_free refl refl))
      (Step.seen_free refl refl)

one_inside-Reachable : Reachable one_inside
unfolding atomic_swap
one_inside-Reachable =
    Reachable.step {h = 1} (Reachable.step {h = 2} both_swap-Reachable (Step.won refl refl))
      (Step.lost refl λ e. absurd (omega (arith, e)))

mutual_exclusion_example : (◌≡◌ {A = ℕ} 2 2) × (one_inside.word ≡ 1)
mutual_exclusion_example = mutual_exclusion one_inside 2 2 one_inside-Reachable refl refl

waiting-GetsIn_example :
    ((g : ℕ) × (both_swap.place g ≡ Place.inside))
    ⊎ ((h : ℕ)
        → (both_swap.place h ≡ Place.testing) ⊎ (both_swap.place h ≡ Place.swapping)
        → GetsIn h both_swap)
waiting-GetsIn_example = waiting-GetsIn both_swap both_swap-Reachable
