-- ===== src/Process/Region.antt =====
-- What do_fork of kernel/process.c does with a whole region of a stack or heap.
use pke.Base.{
  ℕ, zero, suc, ◌+◌, ◌*◌, ◌/◌, ◌%◌, ◌^◌, ◌<◌, ◌≤◌, ◌≡◌, ◌≢◌, ◌⊎◌, inl, inr, refl, sym, ◌∙◌, false,
  arith, Cmd, ok, Returns, returns, Returns-bind, Returns-mono, Bool-cases, ◌==◌, ne→==_false,
  subst,
}
use pke.Pmm.State.{Pmm, page_size}
use pke.Kernel.{Kernel}
use pke.Sched.Next.{Image}
use pke.Vmm.Pte.{pte_w, has_flag, pte_to_pa}
use pke.Vmm.Maps.{lookup_pa}
use pke.Vmm.Lookup.{Off, Reaches, Reaches-agree, Off-agree, page_walk-leaf}
use pke.Process.Fork.{cow_entry, share_entry, share_pages}
use pke.Process.Shared.{Private, share_entry-Shared, lookup_pa-cow_entry}
use pke.Trap.Cow.{unshared-cow_entry}

-- The address of the page `j` of a region.
abbrev pub page_va : ℕ → ℕ → ℕ
page_va va j = (va + j * page_size % 2 ^ 32) % 2 ^ 64

-- The entries of the pages below `n` in the tables of the parent and of the child.
abbrev pub AnEntry : ℕ → (ℕ → ℕ) → (ℕ → ℕ) → ℕ → Type 0
AnEntry n pte leaf a = (i : ℕ) × (i < n) × ((a ≡ pte i) ⊎ (a ≡ leaf i))

-- A region of `n` private pages: both tables are there for each, and all entries are apart.
pub record IsRegion (k : Kernel) (parent_table child_table va n : ℕ) (pte leaf : ℕ → ℕ)
    : Type 0 where
  pub parent : (j : ℕ) → j < n → Reaches k parent_table (page_va va j) (pte j)
  pub child : (j : ℕ) → j < n → Reaches k child_table (page_va va j) (leaf j)
  pub parent_off : (j : ℕ) (h : j < n) (a : ℕ) → AnEntry n pte leaf a → Off (parent j h) a
  pub child_off : (j : ℕ) (h : j < n) (a : ℕ) → AnEntry n pte leaf a → Off (child j h) a
  pub ptes : (i j : ℕ) → i < n → j < n → i ≢ j → pte i ≢ pte j
  pub leaves : (i j : ℕ) → i < n → j < n → i ≢ j → leaf i ≢ leaf j
  pub apart : (i j : ℕ) → i < n → j < n → leaf i ≢ pte j
  pub private : (j : ℕ) → j < n → Private (k.mem (pte j))

-- Page `j` is shared: both processes find it, and neither may write to it.
pub record IsShared (k t : Kernel) (parent_table child_table va pte leaf : ℕ) : Type 0 where
  pub at_pte : t.mem pte ≡ cow_entry (k.mem pte)
  pub at_leaf : t.mem leaf ≡ cow_entry (k.mem pte)
  pub closed : has_flag (cow_entry (k.mem pte)) pte_w ≡ false
  pub marked : cow_entry (k.mem pte) / 2 ^ 8 % 2 ≡ 1
  pub parent : lookup_pa parent_table va t ≡ ok (pte_to_pa (k.mem pte)) t
  pub child : lookup_pa child_table va t ≡ ok (pte_to_pa (k.mem pte)) t

module _ (k : Kernel) (parent_table child_table va n : ℕ) (pte leaf : ℕ → ℕ)
    (region : IsRegion k parent_table child_table va n pte leaf) where
  -- The pages below `i` are done.
  record Done (i : ℕ) (s : Kernel) : Type 0 where
    at_pte : (j : ℕ) → j < i → s.mem (pte j) ≡ cow_entry (k.mem (pte j))
    at_leaf : (j : ℕ) → j < i → s.mem (leaf j) ≡ cow_entry (k.mem (pte j))
    todo : (j : ℕ) → i ≤ j → j < n → s.mem (pte j) ≡ k.mem (pte j)
    rest : (a : ℕ) → ¬ AnEntry n pte leaf a → s.mem a ≡ k.mem a

  Done-parent :
      {i : ℕ} {s : Kernel}
      → Done i s
      → (j : ℕ) → j < n
      → Reaches s parent_table (page_va va j) (pte j)
  Done-parent d j h =
      Reaches-agree (region.parent j h) (d.rest _ λ e. (region.parent_off j h _ e).not_top refl)
        (d.rest _ λ e. (region.parent_off j h _ e).not_medium refl)

  Done-child :
      {i : ℕ} {s : Kernel}
      → Done i s
      → (j : ℕ) → j < n
      → Reaches s child_table (page_va va j) (leaf j)
  Done-child d j h =
      Reaches-agree (region.child j h) (d.rest _ λ e. (region.child_off j h _ e).not_top refl)
        (d.rest _ λ e. (region.child_off j h _ e).not_medium refl)

  -- The next page.
  Done-next :
      {i : ℕ} {s t : Kernel}
      → i < n
      → Done i s
      → t.mem (pte i) ≡ cow_entry (s.mem (pte i))
      → t.mem (leaf i) ≡ cow_entry (s.mem (pte i))
      → ((a : ℕ) → a ≢ pte i → a ≢ leaf i → t.mem a ≡ s.mem a)
      → Done (i + 1) t
  Done-next {i} {s} {t} h d p l others = record {
    at_pte = λ j lt. elim (Bool-cases (j == i)) [
      | inl same ↦ (let e : j ≡ i = ground arith in rw (e, p, d.todo i (omega arith) h) refl)
      | inr differ ↦
          (let ne : j ≢ i = ground arith in
            others (pte j) (region.ptes j i (omega (arith, lt, h)) h ne)
              (λ e. region.apart i j h (omega (arith, lt, h)) (sym e))
            ∙ d.at_pte j (ground arith))
    ];
    at_leaf = λ j lt. elim (Bool-cases (j == i)) [
      | inl same ↦ (let e : j ≡ i = ground arith in rw (e, l, d.todo i (omega arith) h) refl)
      | inr differ ↦
          (let ne : j ≢ i = ground arith in
            others (leaf j) (region.apart j i (omega (arith, lt, h)) h)
              (region.leaves j i (omega (arith, lt, h)) h ne)
            ∙ d.at_leaf j (ground arith))
    ];
    todo = λ j lo hi.
        others (pte j) (region.ptes j i hi h (λ e. absurd (omega (arith, lo, e))))
          (λ e. region.apart i j h hi (sym e))
        ∙ d.todo j (omega (arith, lo)) hi;
    rest = λ a off. others a (λ e. off (i, h, inl e)) (λ e. off (i, h, inr e)) ∙ d.rest a off;
  }

  Done-IsShared :
      {t : Kernel}
      → Done n t
      → (j : ℕ) → j < n
      → IsShared k t parent_table child_table (page_va va j) (pte j) (leaf j)
  Done-IsShared d j h =
      let p = region.private j h in
      let (_, same, closed, marked) =
        unshared-cow_entry (k.mem (pte j)) p.word p.writable p.unmarked in
      record {
        at_pte = d.at_pte j h;
        at_leaf = d.at_leaf j h;
        closed = closed;
        marked = marked;
        parent = lookup_pa-cow_entry (k.mem (pte j)) p (Done-parent d j h) (d.at_pte j h);
        child = lookup_pa-cow_entry (k.mem (pte j)) p (Done-child d j h) (d.at_leaf j h);
      }

  module _ (im : Image) (get_page : ℕ → Cmd Kernel (Unit {0})) (counted : ℕ → Kernel → Pmm)
      (counts : (pa : ℕ) (s : Kernel)
        → get_page pa s ≡ ok tt (record s { pmm = counted pa s })) where
    share_page-Done :
        (i : ℕ) (s : Kernel)
        → i < n
        → Done i s
        → Returns
            (λ _ t. Done (i + 1) t)
            (share_entry im get_page child_table (page_va va i) (pte i) s)
    unfolding Done-parent Done-child
    share_page-Done i s h d =
        let off_p : Off (Done-parent d i h) (leaf i) =
          Off-agree (region.parent i h) _ _ (region.parent_off i h (leaf i) (i, h, inr refl)) in
        let off_c : Off (Done-child d i h) (pte i) =
          Off-agree (region.child i h) _ _ (region.child_off i h (pte i) (i, h, inl refl)) in
        Returns-mono
          (share_entry-Shared im get_page s parent_table child_table (page_va va i) (pte i) (leaf i)
            counted counts (Done-parent d i h) (Done-child d i h) off_p off_c (region.apart i i h h)
            (subst Private (sym (d.todo i (omega arith) h)) (region.private i h)))
          λ _ t (at_pte, at_leaf, _, _, _, _, others). Done-next h d at_pte at_leaf others

    share_pages-Done :
        (rounds i : ℕ) (s : Kernel)
        → i + rounds ≡ n
        → Done i s
        → Returns (λ _ t. Done n t) (share_pages im get_page rounds parent_table child_table va i s)
    unfolding share_pages
    share_pages-Done zero i s e d = returns (subst (λ m. Done m s) (omega (arith, e)) d)
    share_pages-Done (suc rounds) i s e d =
        let h : i < n = omega (arith, e) in
        rw
          (
            page_walk-leaf false (Done-parent d i h),
            ne→==_false (pte i) 0 ((region.parent i h).not_null),
          )
          (Returns-bind (share_page-Done i s h d)
            λ _ t d'. share_pages-Done rounds (i + 1) t (omega (arith, e)) d')

    -- do_fork's loop over the `n` pages of a stack or heap region of the parent, where the entry of
    -- each page is private, the tables of both processes are there for each page, the entries and
    -- the tables of all pages are apart, and get_page only touches the page descriptors: afterwards
    -- every page is shared, so that both processes find it where the parent had it and neither may
    -- write to it, both entries being marked PTE_COW, and no other word of memory has changed.
    pub share_pages-Shared :
        Returns
          (λ _ t.
            ((j : ℕ)
              → j < n
              → IsShared k t parent_table child_table (page_va va j) (pte j) (leaf j))
            × ((a : ℕ) → ¬ AnEntry n pte leaf a → t.mem a ≡ k.mem a))
          (share_pages im get_page n parent_table child_table va 0 k)
    share_pages-Shared =
        Returns-mono
          (share_pages-Done n 0 k (omega arith) (record {
            at_pte = λ j lt. absurd (omega (arith, lt));
            at_leaf = λ j lt. absurd (omega (arith, lt));
            todo = λ j lo hi. refl;
            rest = λ a off. refl;
          }))
          λ _ t d. (Done-IsShared d, d.rest)
