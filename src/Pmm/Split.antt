-- ===== src/Pmm/Split.antt =====
-- buddy_split keeps the free pages and leaves a block of the order that is wanted.
use pke.Base.{
  ℕ, zero, suc, ◌+◌, ◌-◌, ◌%◌, ◌^◌, ◌≤◌, ◌<◌, ◌≡◌, refl, ◌↔◌, inl, inr, true, false, List, [], ◌∷◌,
  arith, has, remove, ==_refl, Bool-cases, ok, ltb, ltb→lt, ltb_false→le, Returns, returns,
  Returns-mono,
}
use native.Mathlib.Nat.{one-le-pow, pow-suc}
use pke.Pmm.Links.{max_order, head, node, list_add, list_del}
use pke.Pmm.Rings.{Ring, list_pop-Ring}
use pke.Pmm.State.{page_of-node, load_page-ok, store_page-ok, Area, write_page}
use pke.Pmm.Invariant.{
  Lists, put_list, Apart, Fits, IsBuddy, detach, attach, rewrite_page, relist, inside_free,
  still_has, detached_out, detached-Apart, new_or_old,
}
use pke.Pmm.Blocks.{Fits-halves, Covers, Covers-put, Covers-take}
use pke.Pmm.Buddy.{split_once, split_loop, buddy_split}

-- The states that one round goes through, `x` being the first page of the list of order `suc o`.
module _ (s : Area) (o x : ℕ) where
  abbrev unlinked : Area
  unlinked = record s { links = list_del s.links (node x) }

  abbrev upper_marked : Area
  upper_marked =
      write_page (x + 2 ^ o)
        (record (s.pages (x + 2 ^ o)) { alloc = 0; is_free = 1; is_head = 1; order = o % 32 })
        unlinked

  abbrev upper_linked : Area
  upper_linked = record upper_marked {
    links = list_add upper_marked.links (head o) (node (x + 2 ^ o)) (node (x + 2 ^ o));
  }

  abbrev lower_marked : Area
  lower_marked = write_page x (record (upper_linked.pages x) { order = o % 32 }) upper_linked

  abbrev pub split_state : Area
  split_state = record lower_marked {
    links = list_add lower_marked.links (head o) (node x) (node x);
  }

  split_once-split_state :
      (r : List ℕ)
      → Ring s.links (suc o) (x ∷ r)
      → x + 2 ^ suc o ≤ s.nr_pages
      → split_once (suc o) s ≡ ok tt split_state
  unfolding split_once
  split_once-split_state r ring room =
      let eo : suc o - 1 ≡ o = omega arith in
      let lower : x < s.nr_pages = omega (arith, one-le-pow (suc o) 2) in
      let upper : x + 2 ^ o < s.nr_pages = omega (arith, pow-suc 2 o, one-le-pow o 2) in
      rw (
        ring.0,
        eo,
        list_pop-Ring s.links (suc o) x r ring,
        page_of-node x unlinked,
        load_page-ok (x + 2 ^ o) unlinked upper,
        store_page-ok (x + 2 ^ o) unlinked
            (record (s.pages (x + 2 ^ o)) { alloc = 0; is_free = 1; is_head = 1; order = o % 32 })
            upper,
        load_page-ok x upper_linked lower,
        store_page-ok x upper_linked (record (upper_linked.pages x) { order = o % 32 }) lower,
      )

-- The lists after one round.
abbrev pub split_lists : Lists → ℕ → ℕ → Lists
split_lists fl o x =
    let f₁ : Lists = put_list fl (suc o) (remove x (fl (suc o))) in
    let f₂ : Lists = put_list f₁ o ((x + 2 ^ o) ∷ f₁ o) in put_list f₂ o (x ∷ f₂ o)

module _ {s : Area} {fl : Lists} (b : IsBuddy s fl []) (o x : ℕ) (ho : suc o < max_order)
    (hx : has x (fl (suc o)) ≡ true) where
  abbrev f₁ : Lists
  f₁ = put_list fl (suc o) (remove x (fl (suc o)))

  b₁ : IsBuddy (unlinked s o x) f₁ (x ∷ [])
  b₁ = detach b (suc o) x ho hx

  out_of_lists :
      (p : ℕ)
      → ((j : ℕ) → j < max_order → has p (fl j) ≡ false)
      → (j : ℕ) → j < max_order
      → has p (f₁ j) ≡ false
  out_of_lists p out j hj = elim (Bool-cases (has p (f₁ j))) [
    | inl h ↦ let old = still_has b (suc o) x j p h in let new = out j hj in cc
    | inr h ↦ h
  ]

  lower_out : (j : ℕ) → j < max_order → has x (f₁ j) ≡ false
  lower_out j hj = detached_out b (suc o) x j ho hj hx

  -- What is left is apart from the block that was taken.
  rest-Apart : (j p : ℕ) → j < max_order → has p (f₁ j) ≡ true → Apart (suc o) x j p
  rest-Apart j p hj hp = detached-Apart b (suc o) x j p ho hj hx hp

  upper_out : (j : ℕ) → j < max_order → has (x + 2 ^ o) (f₁ j) ≡ false
  upper_out = out_of_lists (x + 2 ^ o) (
      inside_free b (suc o) x (x + 2 ^ o) ho hx (omega (arith, one-le-pow o 2))
        (omega (arith, pow-suc 2 o, one-le-pow o 2)))

  abbrev f₂ : Lists
  f₂ = put_list f₁ o ((x + 2 ^ o) ∷ f₁ o)

  upper-Apart : (j p : ℕ) → j < max_order → has p (f₁ j) ≡ true → Apart o (x + 2 ^ o) j p
  upper-Apart j p hj hp = elim (rest-Apart j p hj hp) [
    | inl e ↦ inl (omega (arith, pow-suc 2 o))
    | inr e ↦ inr (omega arith)
  ]

  lower-Apart : (j p : ℕ) → j < max_order → has p (f₂ j) ≡ true → Apart o x j p
  lower-Apart j p hj hp = elim (new_or_old f₁ o (x + 2 ^ o) j p hp) [
    | inl (_, e) ↦ inl (omega arith)
    | inr old ↦ elim (rest-Apart j p hj old) [
      | inl e ↦ inl (omega (arith, pow-suc 2 o))
      | inr e ↦ inr e
    ]
  ]

  lower_out₂ : (j : ℕ) → j < max_order → has x (f₂ j) ≡ false
  lower_out₂ j hj = ground (arith, lower_out j hj, one-le-pow o 2)

  halves : Fits s.nr_pages o x × Fits s.nr_pages o (x + 2 ^ o)
  halves = Fits-halves s.nr_pages o x (b.fits (suc o) x ho hx)

  b₂ : IsBuddy (upper_linked s o x) f₂ ((x + 2 ^ o) ∷ x ∷ [])
  b₂ =
      attach (rewrite_page b₁ (x + 2 ^ o) _ upper_out) o (x + 2 ^ o) (omega arith) upper_out
        (ground arith) halves.1 upper-Apart

  upper_still : (upper_linked s o x).pages x ≡ s.pages x
  upper_still = ground (arith, one-le-pow o 2)

  b₃ : IsBuddy (split_state s o x) (split_lists fl o x) (x ∷ (x + 2 ^ o) ∷ x ∷ [])
  b₃ =
      attach (rewrite_page b₂ x _ lower_out₂) o x (omega arith) lower_out₂
        (ground (arith, b.marked (suc o) x ho hx, one-le-pow o 2)) halves.0 lower-Apart

  -- One round of buddy_split keeps the lists in order.
  split_state-IsBuddy : IsBuddy (split_state s o x) (split_lists fl o x) []
  split_state-IsBuddy = relist b₃ [] λ i p hp out inside m. ground (arith, one-le-pow o 2)

  -- It frees no page and takes none.
  split_lists-Covers : (q : ℕ) → Covers fl q ↔ Covers (split_lists fl o x) q
  split_lists-Covers q =
      let whole = Covers-take fl (suc o) x ho q hx in
      let up = Covers-put f₁ o (x + 2 ^ o) (omega arith) q in
      let low = Covers-put f₂ o x (omega arith) q in
      (
        λ c. elim (whole.0 c) [
          | inl h ↦ elim (Bool-cases (ltb q (x + 2 ^ o))) [
            | inl below ↦ low.1 (inl (h.0, ltb→lt q _ below))
            | inr above ↦
                low.1 (inr (up.1 (inl (ltb_false→le q _ above, omega (arith, h.1, pow-suc 2 o)))))
          ]
          | inr c' ↦ low.1 (inr (up.1 (inr c')))
        ],
        λ c. elim (low.0 c) [
          | inl h ↦ whole.1 (inl (h.0, omega (arith, h.1, pow-suc 2 o)))
          | inr c' ↦ elim (up.0 c') [
            | inl h ↦ whole.1 (inl (omega (arith, h.0), omega (arith, h.1, pow-suc 2 o)))
            | inr c'' ↦ whole.1 (inr c'')
          ]
        ],
      )

-- The lists after some rounds: the same pages are free, and list `target` starts with page `x`.
pub record SplitTo (s : Area) (fl : Lists) (target x : ℕ) (t : Area) : Type 0 where
  pub lists : Lists
  pub rest : List ℕ
  pub valid : IsBuddy t lists []
  pub first : lists target ≡ x ∷ rest
  pub size : t.nr_pages ≡ s.nr_pages
  pub same : (q : ℕ) → Covers fl q ↔ Covers lists q

pub split_loop-SplitTo :
    (rounds target i : ℕ) {s : Area} {fl : Lists} (x : ℕ) (r : List ℕ)
    → IsBuddy s fl []
    → target + rounds ≡ i
    → i < max_order
    → fl i ≡ x ∷ r
    → Returns (λ _ t. SplitTo s fl target x t) (split_loop rounds i s)
unfolding split_loop
split_loop-SplitTo zero target i {fl} x r b e hi first =
    let e' : i ≡ target = omega arith in
    returns (record {
      lists = fl;
      rest = r;
      valid = b;
      first = rw (← e') first;
      size = refl;
      same = λ q. (λ c. c, λ c. c);
    })
split_loop-SplitTo (suc rounds) target i {s} {fl} x r b e hi first =
    let o : ℕ = target + rounds in
    let ei : i ≡ suc o = omega arith in
    let first' : fl (suc o) ≡ x ∷ r = rw (← ei) first in
    let hx : has x (fl (suc o)) ≡ true = rw first' (ground arith) in
    let ho : suc o < max_order = omega arith in
    let eo : suc o - 1 ≡ o = omega arith in
    let ring : Ring s.links (suc o) (x ∷ r) = rw first' at (b.rings (suc o) ho) in
    rw (ei, split_once-split_state s o x r ring (b.fits (suc o) x ho hx).1, eo)
      (Returns-mono
        (split_loop-SplitTo rounds target o x (f₂ b o x ho hx o) (split_state-IsBuddy b o x ho hx)
          refl (omega arith) (rw (==_refl o)))
        λ _ t to. record {
          lists = to.lists;
          rest = to.rest;
          valid = to.valid;
          first = to.first;
          size = to.size;
          same = λ q.
              let once = split_lists-Covers b o x ho hx q in
              (λ c. (to.same q).0 (once.0 c), λ c. once.1 ((to.same q).1 c));
        })

-- `buddy_split(big, target)` on a list of order `big` that is not empty returns with the first page
-- of that list as the first page of list `target`, the lists in order and the same pages free.
pub buddy_split-SplitTo :
    (target big : ℕ) {s : Area} {fl : Lists} (x : ℕ) (r : List ℕ)
    → IsBuddy s fl []
    → target ≤ big
    → big < max_order
    → fl big ≡ x ∷ r
    → Returns (λ _ t. SplitTo s fl target x t) (buddy_split big target s)
unfolding buddy_split
buddy_split-SplitTo target big x r b le hb first =
    split_loop-SplitTo (big - target) target big x r b (omega arith) hb first
