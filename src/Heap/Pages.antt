-- ===== src/Heap/Pages.antt =====
-- The user heap as a set of pages in use, and what the steps of kernel/syscall.c on the heap
-- manager do to the set.
use pke.Base.{
  ℕ, suc, ◌+◌, ◌%◌, ◌<◌, ◌≤◌, ◌≡◌, ◌≢◌, ◌↔◌, ◌⊎◌, sym, ap, ◌∙◌, ◌==◌, Bool-cases, inl, inr, arith,
  some, get_elem?, set, length, length-set, get_elem?-set_self, get_elem?-set_ne,
}
use pke.Pmm.State.{page_size}
use pke.Kernel.{HeapManager, max_heap_pages}

-- A page of the heap that is not on the list of free pages.
pub record InUse (h : HeapManager) (va : ℕ) : Type 0 where
  pub above : h.heap_bottom ≤ va
  pub below : va < h.heap_top
  pub aligned : va % page_size ≡ 0
  pub unlisted : (i : ℕ) → i < h.free_pages_count → get_elem? h.free_pages_address i ≢ some va

-- The list of free pages fits its array and holds pages of the heap, each once.
pub record IsHeap (h : HeapManager) : Type 0 where
  pub size : length h.free_pages_address ≡ max_heap_pages
  pub count : h.free_pages_count ≤ max_heap_pages
  pub order : h.heap_bottom ≤ h.heap_top
  pub top_aligned : h.heap_top % page_size ≡ 0
  pub listed :
      (i va : ℕ)
      → i < h.free_pages_count
      → get_elem? h.free_pages_address i ≡ some va
      → (h.heap_bottom ≤ va) × (va < h.heap_top) × (va % page_size ≡ 0)
  pub once :
      (i j va : ℕ)
      → i < h.free_pages_count
      → j < h.free_pages_count
      → get_elem? h.free_pages_address i ≡ some va
      → get_elem? h.free_pages_address j ≡ some va
      → i ≡ j

-- The second heap has the page `va` in use besides those of the first.
pub record Adds (h : HeapManager) (va : ℕ) (h' : HeapManager) : Type 0 where
  pub new : ¬ InUse h va
  pub there : InUse h' va
  pub others : (a : ℕ) → a ≢ va → InUse h a ↔ InUse h' a

abbrev pub push_heap : HeapManager → ℕ → HeapManager
push_heap h va = record h {
  free_pages_address = set h.free_pages_address h.free_pages_count va;
  free_pages_count = h.free_pages_count + 1;
}

abbrev pub pop_heap : HeapManager → ℕ → HeapManager
pop_heap h n = record h { free_pages_count = n }

abbrev pub grown_heap : HeapManager → HeapManager
grown_heap h = record h { heap_top = h.heap_top + page_size }

module _ (h : HeapManager) (va : ℕ) (v : IsHeap h) where
  -- A page in use is put on the list.
  module _ (u : InUse h va) (room : h.free_pages_count < max_heap_pages) where
    pushed_last : get_elem? (push_heap h va).free_pages_address h.free_pages_count ≡ some va
    pushed_last =
        get_elem?-set_self h.free_pages_address h.free_pages_count va (omega (arith, v.size, room))

    pushed_before :
        (i : ℕ)
        → i < h.free_pages_count
        → get_elem? (push_heap h va).free_pages_address i ≡ get_elem? h.free_pages_address i
    pushed_before i lt = get_elem?-set_ne h.free_pages_address va (λ e. omega (arith, e, lt))

    -- An entry of the new list is the new page or an old entry.
    pushed_cases :
        (i a : ℕ)
        → i < h.free_pages_count + 1
        → get_elem? (push_heap h va).free_pages_address i ≡ some a
        → ((i ≡ h.free_pages_count) × (a ≡ va))
          ⊎ ((i < h.free_pages_count) × (get_elem? h.free_pages_address i ≡ some a))
    pushed_cases i a lt e = elim (Bool-cases (i == h.free_pages_count)) [
      | inl here ↦
          let at : i ≡ h.free_pages_count = ground arith in
          let e' = rw at at e in inl (at, cc (pushed_last))
      | inr other ↦
          let before : i < h.free_pages_count = ground arith in
          inr (before, sym (pushed_before i before) ∙ e)
    ]

    pub push_heap-Adds : Adds (push_heap h va) va h
    push_heap-Adds = record {
      new = λ w. w.unlisted h.free_pages_count (omega arith) pushed_last;
      there = u;
      others = λ a ne. (
        λ w. record {
          above = w.above;
          below = w.below;
          aligned = w.aligned;
          unlisted = λ i lt e. w.unlisted i (omega (arith, lt)) (pushed_before i lt ∙ e);
        },
        λ w. record {
          above = w.above;
          below = w.below;
          aligned = w.aligned;
          unlisted = λ i lt e. elim (pushed_cases i a lt e) [
            | inl (_, same) ↦ ne same
            | inr (before, old) ↦ w.unlisted i before old
          ];
        },
      );
    }

    pub push_heap-IsHeap : IsHeap (push_heap h va)
    push_heap-IsHeap = record {
      size = length-set h.free_pages_address h.free_pages_count va ∙ v.size;
      count = omega (arith, room);
      order = v.order;
      top_aligned = v.top_aligned;
      listed = λ i a lt e. elim (pushed_cases i a lt e) [
        | inl (_, same) ↦ rw same (u.above, u.below, u.aligned)
        | inr (before, old) ↦ v.listed i a before old
      ];
      once = λ i j a lt lt' e e'. elim (pushed_cases i a lt e) [
        | inl (at, same) ↦ elim (pushed_cases j a lt' e') [
          | inl (at', _) ↦ at ∙ sym at'
          | inr (before, old) ↦ absurd (u.unlisted j before (old ∙ ap some same))
        ]
        | inr (before, old) ↦ elim (pushed_cases j a lt' e') [
          | inl (_, same) ↦ absurd (u.unlisted i before (old ∙ ap some same))
          | inr (before', old') ↦ v.once i j a before before' old old'
        ]
      ];
    }

  pub pop_heap-Adds :
      (n : ℕ)
      → h.free_pages_count ≡ suc n
      → get_elem? h.free_pages_address n ≡ some va
      → Adds h va (pop_heap h n) × IsHeap (pop_heap h n)
  pop_heap-Adds n count last =
      let lt : n < h.free_pages_count = omega (arith, count) in
      let more =
        λ (i : ℕ) (l : i < n). let l' : i < h.free_pages_count = omega (arith, l, lt) in l' in
      let (lo, hi, al) = v.listed n va lt last in
      (
        record {
          new = λ w. w.unlisted n lt last;
          there = record {
            above = lo;
            below = hi;
            aligned = al;
            unlisted = λ i l e. omega (arith, l, v.once i n va (more i l) lt e last);
          };
          others = λ a ne. (
            λ w. record {
              above = w.above;
              below = w.below;
              aligned = w.aligned;
              unlisted = λ i l e. w.unlisted i (more i l) e;
            },
            λ w. record {
              above = w.above;
              below = w.below;
              aligned = w.aligned;
              unlisted = λ i l e. elim (Bool-cases (i == n)) [
                | inl here ↦
                    let at : i ≡ n = ground arith in
                    let e' = rw at at e in let same : a ≡ va = cc in ne same
                | inr other ↦ w.unlisted i (ground (arith, l, count)) e
              ];
            },
          );
        },
        record {
          size = v.size;
          count = omega (arith, v.count, lt);
          order = v.order;
          top_aligned = v.top_aligned;
          listed = λ i a l e. v.listed i a (more i l) e;
          once = λ i j a l l' e e'. v.once i j a (more i l) (more j l') e e';
        },
      )

pub grown_heap-Adds :
    (h : HeapManager) → IsHeap h → Adds h h.heap_top (grown_heap h) × IsHeap (grown_heap h)
grown_heap-Adds h v = (
  record {
    new = λ u. omega (arith, u.below);
    there = record {
      above = v.order;
      below = omega arith;
      aligned = v.top_aligned;
      unlisted = λ i lt e. omega (arith, (v.listed i h.heap_top lt e).1);
    };
    others = λ a ne. (
      λ u. record {
        above = u.above;
        below = omega (arith, u.below);
        aligned = u.aligned;
        unlisted = u.unlisted;
      },
      λ u. record {
        above = u.above;
        below = omega (arith, u.below, u.aligned, v.top_aligned, ne);
        aligned = u.aligned;
        unlisted = u.unlisted;
      },
    );
  },
  record {
    size = v.size;
    count = v.count;
    order = omega (arith, v.order);
    top_aligned = omega (arith, v.top_aligned);
    listed = λ i a lt e. let (lo, hi, al) = v.listed i a lt e in (lo, omega (arith, hi), al);
    once = v.once;
  },
)
