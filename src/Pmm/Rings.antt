-- ===== src/Pmm/Rings.antt =====
-- The circular doubly linked lists of kernel/pmm.c as plain lists of page numbers.
use pke.Base.{
  ne_of_has, ℕ, ◌<◌, ◌≡◌, refl, ◌≢◌, ◌↔◌, ◌⊎◌, inl, inr, true, false, List, [], ◌∷◌, arith, has,
  Distinct, remove, Bool-cases, ◌==◌, if◌then◌else◌,
}
use pke.Pmm.Links.{
  Links, Node, head, node, max_order, write, set_next, set_prev, list_add, list_del, list_pop,
}

-- From `a` the `next` pointers lead through the pages `xs` to `b`, and the `prev` pointers back.
abbrev pub Chain : Links → Node → List ℕ → Node → Type 0
Chain l a [] b = (l.next a ≡ b) × (l.prev b ≡ a)
Chain l a (x ∷ xs) b = (l.next a ≡ node x) × (l.prev (node x) ≡ a) × Chain l (node x) xs b

-- The list of order `i` holds the pages `xs`, in this order from its head.
abbrev pub Ring : Links → ℕ → List ℕ → Type 0
Ring l i xs = Chain l (head i) xs (head i)

-- Nodes that differ from the list's own ends and pages can be rewritten.
Chain-frame :
    (l m : Links) (a : Node) (xs : List ℕ) (b : Node)
    → m.next a ≡ l.next a
    → m.prev b ≡ l.prev b
    → ((x : ℕ)
        → has x xs ≡ true
        → (m.next (node x) ≡ l.next (node x)) × (m.prev (node x) ≡ l.prev (node x)))
    → Chain l a xs b
    → Chain m a xs b
Chain-frame l m a [] b ea eb same c = ground arith
Chain-frame l m a (x ∷ xs) b ea eb same c = (
  ground arith,
  ground (arith, same x),
  Chain-frame l m (node x) xs b (ground (arith, same x)) eb (λ y h. same y (ground arith)) c.2,
)

module _ (l : Links) (i n : ℕ) where
  -- __list_add of a page that is not in list `i` behind its head makes the page the first of the
  -- ring, with the old pages behind it.
  pub list_add-Ring :
      (xs : List ℕ)
      → i < max_order
      → Distinct xs
      → has n xs ≡ false
      → Ring l i xs
      → Ring (list_add l (head i) (node n) (node n)) i (n ∷ xs)
  unfolding list_add set_next set_prev write
  list_add-Ring [] hi d out c = ground arith
  list_add-Ring (x ∷ xs) hi d out c = (
    ground arith,
    ground arith,
    (
      ground arith,
      ground arith,
      Chain-frame l (list_add l (head i) (node n) (node n)) (node x) xs (head i) (ground arith)
          (ground arith) (λ y h. ground (arith, ne_of_has y n xs h, ne_of_has y x xs h)) c.2,
    ),
  )

  -- The other lists are as before, if they share no page with list `i` and do not hold the new one.
  pub list_add-Ring_ne :
      (j : ℕ) (xs ys : List ℕ)
      → i < max_order
      → j < max_order
      → i ≢ j
      → has n ys ≡ false
      → ((x : ℕ) → has x xs ≡ true → has x ys ≡ false)
      → Ring l i xs
      → Ring l j ys
      → Ring (list_add l (head i) (node n) (node n)) j ys
  unfolding list_add set_next set_prev write
  list_add-Ring_ne j [] ys hi hj ne out apart c r =
      Chain-frame l (list_add l (head i) (node n) (node n)) (head j) ys (head j) (ground arith)
        (ground arith) (λ y h. ground (arith, ne_of_has y n ys h)) r
  list_add-Ring_ne j (x ∷ xs) ys hi hj ne out apart c r =
      Chain-frame l (list_add l (head i) (node n) (node n)) (head j) ys (head j) (ground arith)
        (ground arith) (λ y h. ground (arith, ne_of_has y n ys h, ne_of_has y x ys h, apart x)) r

-- Within a chain the neighbours of a page are its ends or other pages of it.
prev_in-Chain :
    (l : Links) (a : Node) (xs : List ℕ) (b : Node) (x : ℕ)
    → has x xs ≡ true
    → Chain l a xs b
    → (l.prev (node x) ≡ a) ⊎ ((y : ℕ) × (has y xs ≡ true) × (l.prev (node x) ≡ node y))
prev_in-Chain l a [] b x h c = cc
prev_in-Chain l a (y ∷ xs) b x h c = elim (Bool-cases (x == y)) [
  | inl same ↦ inl (ground arith)
  | inr other ↦ elim (prev_in-Chain l (node y) xs b x (ground arith) c.2) [
    | inl e ↦ inr (y, ground arith, e)
    | inr (z, hz, e) ↦ inr (z, ground arith, e)
  ]
]

next_in-Chain :
    (l : Links) (a : Node) (xs : List ℕ) (b : Node) (x : ℕ)
    → has x xs ≡ true
    → Chain l a xs b
    → (l.next (node x) ≡ b) ⊎ ((y : ℕ) × (has y xs ≡ true) × (l.next (node x) ≡ node y))
next_in-Chain l a [] b x h c = cc
next_in-Chain l a (y ∷ []) b x h c = inl (ground arith)
next_in-Chain l a (y ∷ z ∷ xs) b x h c = elim (Bool-cases (x == y)) [
  | inl same ↦ inr (z, ground arith, ground arith)
  | inr other ↦ elim (next_in-Chain l (node y) (z ∷ xs) b x (ground arith) c.2) [
    | inl e ↦ inl e
    | inr (w, hw, e) ↦ inr (w, ground arith, e)
  ]
]

-- Neither end of a chain is one of its pages.
abbrev Outside : Node → List ℕ → Type 0
Outside a xs = (x : ℕ) → has x xs ≡ true → a ≢ node x

-- What `list_del` writes: two fields, at the neighbours of the node.
list_del-next :
    (l : Links) (n m : Node)
    → (list_del l n).next m ≡ (if m == l.prev n then l.next n else l.next m)
unfolding list_del set_next set_prev write
list_del-next l n m = ground arith

list_del-prev :
    (l : Links) (n m : Node)
    → (list_del l n).prev m ≡ (if m == l.next n then l.prev n else l.prev m)
unfolding list_del set_next set_prev write
list_del-prev l n m = ground arith

module _ (l : Links) (x : ℕ) where
  -- The page is the first of the chain.
  del_first :
      (a : Node) (xs : List ℕ) (b : Node)
      → has x xs ≡ false
      → Distinct xs
      → Outside a (x ∷ xs)
      → Outside b (x ∷ xs)
      → Chain l a (x ∷ xs) b
      → Chain (list_del l (node x)) a xs b
  del_first a [] b out d oa ob c =
      (ground (arith, list_del-next l (node x) a), ground (arith, list_del-prev l (node x) b))
  del_first a (z ∷ r) b out d oa ob c = (
    ground (arith, list_del-next l (node x) a),
    ground (arith, list_del-prev l (node x) (node z)),
    Chain-frame l (list_del l (node x)) (node z) r b
        (ground (arith, list_del-next l (node x) (node z), oa z))
        (ground (arith, list_del-prev l (node x) b, ob z))
        (λ y h. (
          ground (arith, list_del-next l (node x) (node y), oa y),
          ground (arith, list_del-prev l (node x) (node y), ne_of_has y z r h),
        ))
        c.2.2,
  )

  pub list_del-Chain :
      (a : Node) (xs : List ℕ) (b : Node)
      → has x xs ≡ true
      → Distinct xs
      → Outside a xs
      → Outside b xs
      → Chain l a xs b
      → Chain (list_del l (node x)) a (remove x xs) b
  unfolding remove
  list_del-Chain a [] b h d oa ob c = cc
  list_del-Chain a (y ∷ xs) b h d oa ob c = elim (Bool-cases (x == y)) [
    | inl same ↦
        let e : x ≡ y = ground arith in
        rw same (del_first a xs b (rw e d.0) d.1 (rw e oa) (rw e ob) (rw e c))
    | inr other ↦
        let h' : has x xs ≡ true = ground arith in
        rw other (
          next_kept h' other,
          prev_kept h' other,
          list_del-Chain (node y) xs b h' d.1 (λ z hz. ground (arith, ne_of_has z y xs hz))
              (λ z hz. ob z (ground arith)) c.2,
        )
  ]
    where
      next_kept : has x xs ≡ true → (x == y) ≡ false → (list_del l (node x)).next a ≡ node y
      next_kept h' other = elim (prev_in-Chain l (node y) xs b x h' c.2) [
        | inl e ↦ ground (arith, list_del-next l (node x) a, oa y)
        | inr (z, hz, e) ↦ ground (arith, list_del-next l (node x) a, oa z)
      ]

      prev_kept : has x xs ≡ true → (x == y) ≡ false → (list_del l (node x)).prev (node y) ≡ a
      prev_kept h' other = elim (next_in-Chain l (node y) xs b x h' c.2) [
        | inl e ↦ ground (arith, list_del-prev l (node x) (node y), ob y)
        | inr (z, hz, e) ↦ ground (arith, list_del-prev l (node x) (node y), ne_of_has z y xs hz)
      ]

  -- __list_del of a page that is in the list of an order takes it out of that list, and the ring
  -- of the other pages stays whole.
  pub list_del-Ring :
      (i : ℕ) (xs : List ℕ)
      → i < max_order
      → has x xs ≡ true
      → Distinct xs
      → Ring l i xs
      → Ring (list_del l (node x)) i (remove x xs)
  list_del-Ring i xs hi h d r =
      list_del-Chain (head i) xs (head i) h d (λ z hz. omega arith) (λ z hz. omega arith) r

  pub list_del-Ring_ne :
      (i j : ℕ) (xs ys : List ℕ)
      → i < max_order
      → j < max_order
      → i ≢ j
      → has x xs ≡ true
      → ((z : ℕ) → has z xs ≡ true → has z ys ≡ false)
      → Ring l i xs
      → Ring l j ys
      → Ring (list_del l (node x)) j ys
  list_del-Ring_ne i j xs ys hi hj ne h apart r r' =
      Chain-frame l (list_del l (node x)) (head j) ys (head j)
        (next_same (head j) (ground arith) (λ z hz. omega arith))
        (prev_same (head j) (ground arith) (λ z hz. omega arith))
        (λ y hy. (
          next_same (node y) (omega arith) (λ z hz. ground (arith, ne_of_has y z ys hy, apart z)),
          prev_same (node y) (omega arith) (λ z hz. ground (arith, ne_of_has y z ys hy, apart z)),
        ))
        r'
    where
      next_same :
          (m : Node)
          → m ≢ head i
          → ((z : ℕ) → has z xs ≡ true → m ≢ node z)
          → (list_del l (node x)).next m ≡ l.next m
      next_same m ne_head ne_node = elim (prev_in-Chain l (head i) xs (head i) x h r) [
        | inl e ↦ ground (arith, list_del-next l (node x) m)
        | inr (z, hz, e) ↦ ground (arith, list_del-next l (node x) m, ne_node z)
      ]

      prev_same :
          (m : Node)
          → m ≢ head i
          → ((z : ℕ) → has z xs ≡ true → m ≢ node z)
          → (list_del l (node x)).prev m ≡ l.prev m
      prev_same m ne_head ne_node = elim (next_in-Chain l (head i) xs (head i) x h r) [
        | inl e ↦ ground (arith, list_del-prev l (node x) m)
        | inr (z, hz, e) ↦ ground (arith, list_del-prev l (node x) m, ne_node z)
      ]

-- A list that is not empty starts with the node behind its head.
pub list_pop-Ring :
    (l : Links) (i x : ℕ) (xs : List ℕ)
    → Ring l i (x ∷ xs)
    → list_pop l (head i) ≡ list_del l (node x)
unfolding list_pop
list_pop-Ring l i x xs r = rw r.0

-- The test `next == &free_area[i]` tells whether a list is empty.
pub Ring-nil_iff :
    (l : Links) (i : ℕ) (xs : List ℕ)
    → i < max_order
    → Ring l i xs
    → (l.next (head i) ≡ head i) ↔ (xs ≡ [])
Ring-nil_iff l i [] hi r = (λ e. refl, λ e. r.0)
Ring-nil_iff l i (x ∷ xs) hi r = (λ e. absurd (omega arith), λ e. absurd (cc))
