-- ===== src/Pmm/Alloc.antt =====
-- buddy_alloc takes one block out of the free pages, or panics because there is none.
use pke.Base.{
  List-cases, ℕ, zero, suc, ◌+◌, ◌-◌, ◌*◌, ◌^◌, ◌≤◌, ◌<◌, ◌≡◌, refl, ◌≢◌, ◌⊎◌, ◌↔◌, inl, inr, true,
  false, List, [], ◌∷◌, arith, has, remove, ==_refl, Bool-cases, ◌==◌, ok, halt, panicked, ltb,
  lt→ltb, ltb_false→le, ◌∙◌, Returns, returns, Returns-bind, Returns-mono, Run,
}
use native.Mathlib.Nat.{one-le-pow}
use pke.Pmm.Links.{max_order, head, node, list_del}
use pke.Pmm.Rings.{Ring, list_pop-Ring, Ring-nil_iff}
use pke.Pmm.State.{
  Area, Pmm, write_page, page_of-node, load_page-ok, store_page-ok, on_area_result, pfn_to_addr,
  dram_base, page_size,
}
use pke.Pmm.Invariant.{
  Lists, put_list, Fits, IsBuddy, detach, rewrite_page, relist, detached_out, detached-Apart,
}
use pke.Pmm.Blocks.{InBlock, Covers, Covers-take}
use pke.Pmm.Split.{SplitTo, buddy_split-SplitTo}
use pke.Pmm.Buddy.{
  take_first, take_block, alloc_loop, buddy_alloc, lock_acquire, lock_release, buddy_split,
}

-- The memory ends far below the top of the address space.
abbrev pub IsSmall : Area → Type 0
IsSmall s = s.nr_pages ≤ 2 ^ 51

-- A block of `2 ^ order` pages has left the free pages of `m`; it is aligned, its descriptor says
-- that it is in use, the lock is free, and nothing else changed.
pub record Taken (m : Pmm) (fl : Lists) (order addr : ℕ) (t : Pmm) : Type 0 where
  pub pfn : ℕ
  pub lists : Lists
  pub address : addr ≡ pfn * page_size + dram_base
  pub valid : IsBuddy t.area lists []
  pub size : t.area.nr_pages ≡ m.area.nr_pages
  pub fits : Fits m.area.nr_pages order pfn
  pub free : (q : ℕ) → Covers fl q ↔ (InBlock order pfn q ⊎ Covers lists q)
  pub gone : (q : ℕ) → InBlock order pfn q → ¬ Covers lists q
  pub marks :
      ((t.area.pages pfn).is_free ≡ 0)
      × ((t.area.pages pfn).alloc ≡ 1)
      × ((t.area.pages pfn).is_head ≡ 1)
      × ((t.area.pages pfn).order ≡ order)
  pub same : t ≡ record m { area = t.area; lock = 0 }

pub on_area-Returns :
    {A : Type 0} {P : A → Area → Type 0} (m : Pmm) (r : Run Area A)
    → Returns P r
    → Returns (λ a t. P a t.area × (t ≡ record m { area = t.area })) (on_area_result m r)
on_area-Returns m r (returns p) = returns (p, refl)

pub pfn_to_addr_lem : (pfn : ℕ) → pfn < 2 ^ 51 → pfn_to_addr pfn ≡ pfn * page_size + dram_base
unfolding pfn_to_addr
pfn_to_addr_lem pfn h = omega arith

module _ (m : Pmm) {fl : Lists} (b : IsBuddy m.area fl []) (order x : ℕ) (r : List ℕ)
    (small : IsSmall m.area) (ho : order < max_order) (first : fl order ≡ x ∷ r) where
  abbrev popped : Area
  popped = record m.area { links = list_del m.area.links (node x) }

  abbrev taken_area : Area
  taken_area = write_page x (record (m.area.pages x) { is_free = 0; alloc = 1 }) popped

  first_here : has x (fl order) ≡ true
  first_here = rw first (ground arith)

  in_memory : x < m.area.nr_pages
  in_memory = omega (arith, (b.fits order x ho first_here).1, one-le-pow order 2)

  take_first-runs :
      take_first order m ≡ ok (x * page_size + dram_base) (record m { area = taken_area; lock = 0 })
  unfolding take_first
  take_first-runs =
      let ring : Ring m.area.links order (x ∷ r) = rw first at (b.rings order ho) in
      rw (
        ring.0,
        list_pop-Ring m.area.links order x r ring,
        page_of-node x popped,
        load_page-ok x popped in_memory,
        store_page-ok x popped (record (m.area.pages x) { is_free = 0; alloc = 1 }) in_memory,
        pfn_to_addr_lem x (omega (arith, in_memory)),
      )

  abbrev lists_after : Lists
  lists_after = put_list fl order (remove x (fl order))

  out_after : (j : ℕ) → j < max_order → has x (lists_after j) ≡ false
  out_after j hj = detached_out b order x j ho hj first_here

  taken-IsBuddy : IsBuddy taken_area lists_after []
  taken-IsBuddy =
      relist (rewrite_page (detach b order x ho first_here) x _ out_after) []
        λ i p hp out inside mark. ground arith

  block_gone : (q : ℕ) → InBlock order x q → ¬ Covers lists_after q
  block_gone q inside (j, p, hj, h, within) =
      elim (detached-Apart b order x j p ho hj first_here h) [
        | inl e ↦ omega arith
        | inr e ↦ omega arith
      ]

  take_first-Taken : Returns (Taken m fl order) (take_first order m)
  take_first-Taken = rw take_first-runs (
      returns (record {
        pfn = x;
        lists = lists_after;
        address = refl;
        valid = taken-IsBuddy;
        size = refl;
        fits = b.fits order x ho first_here;
        free = λ q. Covers-take fl order x ho q first_here;
        gone = block_gone;
        marks = ground (arith, b.marked order x ho first_here);
        same = refl;
      }))

-- The state of the allocator with other descriptors and lists.
abbrev with_area : Pmm → Area → Pmm
with_area m s = record m { area = s }

-- What buddy_split leaves behind is as good as what it found.
Taken-SplitTo :
    (m : Pmm) {fl : Lists} (order x addr : ℕ) (s : Area) {t : Pmm}
    → (to : SplitTo m.area fl order x s) → Taken (with_area m s) to.lists order addr t
    → Taken m fl order addr t
Taken-SplitTo m order x addr s to taken = record {
  pfn = taken.pfn;
  lists = taken.lists;
  address = taken.address;
  valid = taken.valid;
  size = taken.size ∙ to.size;
  fits = rw to.size at taken.fits;
  free = λ q. (λ c. (taken.free q).0 ((to.same q).0 c), λ c. (to.same q).1 ((taken.free q).1 c));
  gone = taken.gone;
  marks = taken.marks;
  same = taken.same;
}

module _ (m : Pmm) {fl : Lists} (b : IsBuddy m.area fl []) (order : ℕ)
    (small : IsSmall m.area) where
  take_after_split :
      (x : ℕ)
      → order < max_order
      → (s : Area) → SplitTo m.area fl order x s
      → Returns (Taken m fl order) (take_first order (with_area m s))
  take_after_split x ho s to =
      Returns-mono
        (take_first-Taken (with_area m s) to.valid order x to.rest (rw to.size small) ho to.first)
        λ addr t taken. Taken-SplitTo m order x addr s to taken

  take_block-Taken :
      (i x : ℕ) (r : List ℕ)
      → order ≤ i
      → i < max_order
      → fl i ≡ x ∷ r
      → Returns (Taken m fl order) (take_block order i m)
  unfolding take_block
  take_block-Taken i x r le hi first = elim (Bool-cases (ltb order i)) [
    | inl larger ↦ rw larger (
        Returns-bind
          (on_area-Returns m (buddy_split i order m.area)
            (buddy_split-SplitTo order i x r b le hi first))
          λ _ t (to, same). rw same (take_after_split x (omega arith) t.area to))
    | inr equal ↦
        let e : i ≡ order = omega (arith, ltb_false→le order i equal) in
        rw equal (take_first-Taken m b order x r small (omega arith) (rw e at first))
  ]

  -- A list from `order` up holds a block.
  abbrev pub HasBlock : ℕ → Type 0
  HasBlock i = (j : ℕ) × (i ≤ j) × (j < max_order) × (fl j ≢ [])

  list_empty : (i : ℕ) → i < max_order → fl i ≡ [] → m.area.links.next (head i) ≡ head i
  list_empty i hi empty = (Ring-nil_iff m.area.links i (fl i) hi (b.rings i hi)).1 empty

  list_full :
      (i x : ℕ) (r : List ℕ)
      → i < max_order
      → fl i ≡ x ∷ r
      → (m.area.links.next (head i) == head i) ≡ false
  list_full i x r hi first =
      let ring : Ring m.area.links i (x ∷ r) = rw first at (b.rings i hi) in ground (arith, ring.0)

  alloc_loop-Taken :
      (rounds i : ℕ)
      → order ≤ i
      → i + rounds ≡ max_order
      → HasBlock i
      → Returns (Taken m fl order) (alloc_loop order rounds i m)
  unfolding alloc_loop
  alloc_loop-Taken zero i le e (j, lo, hi, some) = absurd (omega arith)
  alloc_loop-Taken (suc rounds) i le e (j, lo, hi, some) = elim (List-cases (fl i)) [
    | inl empty ↦
        let more : i + 1 ≤ j = ground arith in
        rw (list_empty i (omega arith) empty, ==_refl i)
          (alloc_loop-Taken rounds (i + 1) (omega arith) (omega arith) (j, more, hi, some))
    | inr (x, r, first) ↦
        rw (list_full i x r (omega arith) first) (take_block-Taken i x r le (omega arith) first)
  ]

  alloc_loop-panics :
      (rounds i : ℕ)
      → i + rounds ≡ max_order
      → ((j : ℕ) → i ≤ j → j < max_order → fl j ≡ [])
      → alloc_loop order rounds i m ≡ halt panicked
  unfolding alloc_loop lock_release
  alloc_loop-panics zero i e empty = refl
  alloc_loop-panics (suc rounds) i e empty =
      rw (list_empty i (omega arith) (empty i (omega arith) (omega arith)), ==_refl i)
        (alloc_loop-panics rounds (i + 1) (omega arith) λ j lo hi. empty j (omega arith) hi)

-- On a free lock, lock_acquire takes it.
pub lock_acquire-ok : (m : Pmm) → m.lock ≡ 0 → lock_acquire m ≡ ok tt (record m { lock = 1 })
unfolding lock_acquire
lock_acquire-ok m free = rw free

Taken-locked :
    (m : Pmm) {fl : Lists} {order : ℕ} (addr : ℕ) {t : Pmm}
    → Taken (record m { lock = 1 }) fl order addr t
    → Taken m fl order addr t
Taken-locked m addr taken = record {
  pfn = taken.pfn;
  lists = taken.lists;
  address = taken.address;
  valid = taken.valid;
  size = taken.size;
  fits = taken.fits;
  free = taken.free;
  gone = taken.gone;
  marks = taken.marks;
  same = taken.same;
}

module _ (m : Pmm) {fl : Lists} (b : IsBuddy m.area fl []) (order : ℕ) (small : IsSmall m.area)
    (free : m.lock ≡ 0) (ho : order < max_order) where
  -- buddy_alloc on a free lock and lists in order over at most 2 ^ 51 pages, when some list from
  -- `order` up holds a block: it returns the address of an aligned block of 2 ^ order pages that
  -- were free and are no longer, no other page changes hands, the lists stay in order, and the
  -- lock is free again.
  pub buddy_alloc-Taken :
      (j : ℕ)
      → order ≤ j
      → j < max_order
      → fl j ≢ []
      → Returns (Taken m fl order) (buddy_alloc order m)
  unfolding buddy_alloc
  buddy_alloc-Taken j lo hi some =
      rw (lt→ltb order max_order ho, lock_acquire-ok m free)
        (Returns-mono
          (alloc_loop-Taken (record m { lock = 1 }) b order small (max_order - order) order
            (omega arith) (omega arith) (j, lo, hi, some))
          λ addr t taken. Taken-locked m addr taken)

  -- On a free lock and lists in order, when no list from `order` up holds a block, buddy_alloc
  -- panics.
  pub buddy_alloc-panics :
      ((j : ℕ) → order ≤ j → j < max_order → fl j ≡ []) → buddy_alloc order m ≡ halt panicked
  unfolding buddy_alloc lock_acquire
  buddy_alloc-panics empty =
      rw (lt→ltb order max_order ho, free)
        (alloc_loop-panics (record m { lock = 1 }) b order small (max_order - order) order
          (omega arith) empty)
