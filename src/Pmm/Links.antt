-- ===== src/Pmm/Links.antt =====
-- `list_node` of kernel/pmm.c and its operations `__list_del`, `__list_add` and `__list_pop`. The
-- addresses of the nodes are numbered: below MAX_ORDER the list heads `main_buddy.free_area[i]`,
-- and from there on the nodes inside the page descriptors, `&pages[pfn].node`.
use pke.Base.{ℕ, ◌+◌, ◌-◌, ◌==◌, if◌then◌else◌}

abbrev pub max_order : ℕ
max_order = 11

abbrev pub Node : Type 0
Node = ℕ

-- `&main_buddy.free_area[i]`, for `i` below MAX_ORDER.
abbrev pub head : ℕ → Node
head i = i

-- `&pages[pfn].node`.
abbrev pub node : ℕ → Node
node pfn = max_order + pfn

-- NODE_TO_PAGE, as the index of the page; only for nodes of pages.
abbrev pub node_to_page : Node → ℕ
node_to_page n = n - max_order

-- The two fields of all nodes.
pub record Links : Type 0 where
  pub prev : Node → Node
  pub next : Node → Node

-- `p->field = v`.
unfoldable pub write : (Node → Node) → Node → Node → Node → Node
write f p v q = if q == p then v else f q

unfoldable pub set_prev : Links → Node → Node → Links
unfolding write
set_prev l p v = record l { prev = write l.prev p v }

unfoldable pub set_next : Links → Node → Node → Links
unfolding write
set_next l p v = record l { next = write l.next p v }

unfoldable pub list_del : Links → Node → Links
unfolding set_next set_prev
list_del l n =
    let l' : Links = set_next l (l.prev n) (l.next n) in set_prev l' (l'.next n) (l'.prev n)

unfoldable pub list_add : Links → Node → Node → Node → Links
unfolding set_next set_prev
list_add l prev new_head new_tail =
    let l₁ : Links = set_prev l new_head prev in
    let l₂ : Links = set_next l₁ new_tail (l₁.next prev) in
    let l₃ : Links = set_prev l₂ (l₂.next prev) new_tail in set_next l₃ prev new_head

-- The first node behind a list head; the caller has seen that there is one.
unfoldable pub list_pop : Links → Node → Links
unfolding list_del
list_pop l h = list_del l (l.next h)
