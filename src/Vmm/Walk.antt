-- ===== src/Vmm/Walk.antt =====
-- page_walk of kernel/vmm.c.
use pke.Base.{
  ℕ, zero, suc, ◌+◌, ◌-◌, ◌*◌, ◌<◌, ◌≡◌, refl, Bool, true, false, bit_or, ◌==◌, ltb, lt→ltb, ◌&&◌,
  if◌then◌else◌, Option, none, some, Cmd, ok, panicked, ensure, pure, ◌>>=◌, ◌>>◌,
}
use pke.Pmm.State.{page_size}
use pke.Pmm.Cache.{alloc_page, pfree}
use pke.Kernel.{Kernel, load, store, zero_words, on_pmm}
use pke.Vmm.Pte.{pte_v, has_flag, pa_to_pte, pte_to_pa, px, max_va}

-- `pt + PX(level, va)`, an array of 64-bit entries.
abbrev pub entry : ℕ → ℕ → ℕ → ℕ
entry pt level va = pt + px level va * 8

-- atomic_cas_d(pte, 0, v) on the only hart: the outcome, and the store when it succeeds.
unfoldable pub cas_zero : ℕ → ℕ → Cmd Kernel Bool
cas_zero pte v k = elim (k.mem pte == 0) [
  | true ↦ (store pte v >> pure true) k
  | false ↦ ok false k
]

-- The new page `pt` becomes the table behind `pte`, or goes back when `pte` is taken.
unfoldable pub hang_table : ℕ → ℕ → Cmd Kernel (Option ℕ)
hang_table pte pt = do
  taken ← cas_zero pte (bit_or (pa_to_pte pt) pte_v)
  (if taken
      then zero_words pt page_size >> pure (some pt)
      else do on_pmm (pfree pt); w ← load pte; pure (some (pte_to_pa w)))

unfoldable pub new_table : ℕ → Cmd Kernel (Option ℕ)
new_table pte = do pt ← on_pmm alloc_page; (if pt == 0 then pure none else hang_table pte pt)

-- The body of the loop: the table of the next level.
unfoldable pub next_table : ℕ → ℕ → ℕ → Bool → Cmd Kernel (Option ℕ)
next_table pt level va alloc = do
  w ← load (entry pt level va)
  (if has_flag w pte_v
      then pure (some (pte_to_pa w))
      else (if alloc then new_table (entry pt level va) else pure none))

-- `for (level = 2; level > target_level; level--)`, with the number of rounds left.
unfoldable pub walk_down : ℕ → ℕ → ℕ → Bool → ℕ → Cmd Kernel (Option ℕ)
walk_down zero level va alloc pt = pure (some pt)
walk_down (suc rounds) level va alloc pt = do
  t ← next_table pt level va alloc
  (λ k. elim t [ none ↦ ok none k | some pt' ↦ walk_down rounds (level - 1) va alloc pt' k ])

unfoldable pub leaf_of : Option ℕ → ℕ → ℕ
leaf_of none va = 0
leaf_of (some pt) va = entry pt 0 va

-- The address of the entry, or 0 for the null pointer.
unfoldable pub page_walk : ℕ → ℕ → ℕ → Bool → Cmd Kernel ℕ
page_walk page_dir va target_level alloc = do
  ensure (ltb 0 va && ltb va max_va) panicked
  t ← walk_down (2 - target_level) 2 va alloc page_dir
  pure (leaf_of t va)

-- Three levels of tables in memory lead from a page directory to a table of leaves.
pub record Walks (mem : ℕ → ℕ) (page_dir va leaves : ℕ) : Type 0 where
  pub medium : ℕ
  pub top_valid : has_flag (mem (entry page_dir 2 va)) pte_v ≡ true
  pub top : pte_to_pa (mem (entry page_dir 2 va)) ≡ medium
  pub medium_valid : has_flag (mem (entry medium 1 va)) pte_v ≡ true
  pub low : pte_to_pa (mem (entry medium 1 va)) ≡ leaves

-- Where the three levels of tables for an address above 0 and below MAXVA are there, page_walk
-- finds the leaf entry and changes nothing, whether it may allocate or not.
pub page_walk-Walks :
    (k : Kernel) (page_dir va pt : ℕ) (alloc : Bool)
    → Walks k.mem page_dir va pt
    → 0 < va
    → va < max_va
    → page_walk page_dir va 0 alloc k ≡ ok (entry pt 0 va) k
unfolding page_walk walk_down next_table load leaf_of
page_walk-Walks k page_dir va pt alloc w pos hi =
    rw (lt→ltb 0 va pos, lt→ltb va max_va hi, w.top_valid, w.top, w.medium_valid, w.low) refl

-- Where the table behind the page directory is missing and page_walk may not allocate, it
-- returns the null pointer and changes nothing.
pub page_walk-missing :
    (k : Kernel) (page_dir va : ℕ)
    → has_flag (k.mem (entry page_dir 2 va)) pte_v ≡ false
    → 0 < va
    → va < max_va
    → page_walk page_dir va 0 false k ≡ ok 0 k
unfolding page_walk walk_down next_table load leaf_of
page_walk-missing k page_dir va w pos hi = rw (lt→ltb 0 va pos, lt→ltb va max_va hi, w) refl
