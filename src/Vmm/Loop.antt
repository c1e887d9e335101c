-- ===== src/Vmm/Loop.antt =====
-- map_pages over regions that have no table yet.
use pke.Base.{
  ℕ, zero, suc, ◌+◌, ◌/◌, ◌%◌, ◌^◌, ◌<◌, ◌≤◌, ◌≡◌, ◌⊎◌, inl, inr, refl, Bool, true, false, leb,
  List, has, arith, Run, ok, and_then, Partly, partly, gone, Partly-bind, Partly-mono, halted,
  Bool-cases,
}
use pke.Pmm.State.{page_size}
use pke.Kernel.{Kernel}
use pke.Vmm.Walk.{entry}
use pke.Vmm.Maps.{map_page, map_loop}
use pke.Vmm.Supply.{table_word, next_table-valid}
use pke.Vmm.Tables.{InRegion, Mapping, Reached, px-top, descend, map_page-Reached}

-- The rest of the loop after a page.
abbrev pub go_on : ℕ → ℕ → ℕ → ℕ → ℕ → ℕ → Bool → Kernel → Run Kernel Bool
go_on fuel page_dir first stop_at pa perm fine t = elim fine [
  | false ↦ ok false t
  | true ↦
      map_loop fuel page_dir ((first + page_size) % 2 ^ 64) stop_at ((pa + page_size) % 2 ^ 64) perm
        t
]

pub map_loop-go_on :
    (fuel page_dir first stop_at pa perm : ℕ) (k : Kernel)
    → leb first stop_at ≡ true
    → map_loop (suc fuel) page_dir first stop_at pa perm k
      ≡ and_then (map_page page_dir first pa perm k) (go_on fuel page_dir first stop_at pa perm)
unfolding map_loop
map_loop-go_on fuel page_dir first stop_at pa perm k more = rw (map_loop, more) refl

map_loop-over :
    (fuel page_dir first stop_at pa perm : ℕ) (k : Kernel)
    → leb first stop_at ≡ false
    → Partly (λ fine t. t ≡ k) (map_loop fuel page_dir first stop_at pa perm k)
unfolding map_loop
map_loop-over zero page_dir first stop_at pa perm k over = gone halted
map_loop-over (suc fuel) page_dir first stop_at pa perm k over = rw (map_loop, over) (partly refl)

next_region :
    (r first : ℕ)
    → InRegion r first
    → first + page_size < 2 ^ 31 + 2 ^ 27
    → InRegion r (first + page_size) ⊎ InRegion (suc r) (first + page_size)
next_region r first (e, h) lt =
    elim (Bool-cases (leb (1024 + suc r) ((first + page_size) / 2 ^ 21))) [
      | inl up ↦ inr (ground arith, ground arith)
      | inr same ↦ inl (ground arith, h)
    ]

module _ (xs : List ℕ) (small : (q : ℕ) → has q xs ≡ true → q < 2 ^ 43) (dir medium : ℕ) where
  abbrev Reach : ℕ → ℕ → Kernel → Type 0
  Reach r a t = Reached xs small dir medium r a t

  -- The page before the end of the range has its table, the last one.
  abbrev pub Done : ℕ → Kernel → Type 0
  Done stop_at t = (r : ℕ) × (a : ℕ) × InRegion r stop_at × Reach r a t

  -- The pages that a loop runs over.
  abbrev pub Pages : ℕ → ℕ → Type 0
  Pages first stop_at =
      (first % page_size ≡ 0)
      × (stop_at % page_size ≡ 0)
      × (first ≤ stop_at)
      × (stop_at < 2 ^ 31 + 2 ^ 27)

  -- The loop with this fuel, from a page of the last region or of the next.
  abbrev Loops : ℕ → Type 0
  Loops fuel =
      (first stop_at pa perm leaves n c r : ℕ) (k : Kernel)
      → Mapping xs small dir medium leaves n c k
      → InRegion r first
      → (suc r ≡ n) ⊎ (r ≡ n)
      → Pages first stop_at
      → Partly (λ fine t. fine ≡ true → Done stop_at t) (map_loop fuel dir first stop_at pa perm k)

  pub go_on-Done :
      (fuel first stop_at pa perm r : ℕ) (fine : Bool) (t : Kernel)
      → Loops fuel
      → (fine ≡ true → (a : ℕ) × Reach r a t)
      → InRegion r first
      → Pages first stop_at
      → Partly
          (λ fine' u. fine' ≡ true → Done stop_at u)
          (go_on fuel dir first stop_at pa perm fine t)
  go_on-Done fuel first stop_at pa perm r false t again reached h pages = partly λ e. cc
  go_on-Done fuel first stop_at pa perm r true t again reached h (aligned, aligned', le, below) =
      let e : (first + page_size) % 2 ^ 64 ≡ first + page_size = omega (arith, le, below) in
      let (a, last_table) = reached refl in
      let (c, m) = last_table in
      elim (Bool-cases (leb (first + page_size) stop_at)) [
        | inl more ↦
            let le' : first + page_size ≤ stop_at = ground arith in
            let pages' : Pages (first + page_size) stop_at =
              (omega (arith, aligned), aligned', le', below) in
            elim (next_region r first h (omega (arith, le', below))) [
              | inl same ↦ rw e (
                  again (first + page_size) stop_at _ perm a (suc r) c r t m same (inl refl) pages')
              | inr next ↦ rw e (
                  again (first + page_size) stop_at _ perm a (suc r) c (suc r) t m next (inr refl)
                    pages')
            ]
        | inr over ↦
            let last : first ≡ stop_at = ground (arith, aligned, aligned', le) in
            rw e (
              Partly-mono (map_loop-over fuel dir (first + page_size) stop_at _ perm t over)
                λ fine u same _. (r, a, rw last at h, (c, rw same m)))
      ]

  pub map_loop-Done : (fuel : ℕ) → Loops fuel
  unfolding map_loop
  map_loop-Done zero first stop_at pa perm leaves n c r k m h at pages = gone halted
  map_loop-Done (suc fuel) first stop_at pa perm leaves n c r k m h at pages =
      let more : leb first stop_at ≡ true = (let le = pages.2 in ground arith) in
      let word : k.mem (entry dir 2 first) ≡ table_word medium = rw (px-top r first h) m.top in
      let top = next_table-valid xs dir 2 first k medium m.medium_page word in
      rw (map_loop-go_on fuel dir first stop_at pa perm k more) (
        Partly-bind
          (map_page-Reached xs small dir medium r first pa perm k k h top
            (descend xs small dir medium leaves n c r first k m h at))
          λ fine t reached.
            go_on-Done fuel first stop_at pa perm r fine t (map_loop-Done fuel) reached h pages)
