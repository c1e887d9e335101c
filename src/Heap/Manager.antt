-- ===== src/Heap/Manager.antt =====
-- The heap of a process: sys_user_allocate_page and sys_user_free_page of kernel/syscall.c.
use pke.Base.{
  ℕ, suc, ◌+◌, ◌-◌, ◌%◌, ◌^◌, ◌<◌, ◌≡◌, refl, true, ltb, lt→ltb, ==_refl, arith, some, ok,
  get_elem?, set, length, get_elem?-set_self, and_then, Returns, returns,
}
use pke.Kernel.{HeapManager, Kernel, max_heap_pages, write_proc}
use pke.Trap.Syscall.{push_free_page, pop_free_page}

-- The manager of a heap of process `c` after `va` has been put on its list of free pages.
abbrev pub pushed : Kernel → ℕ → ℕ → Kernel
pushed k c va =
    let heap : HeapManager = (k.procs c).user_heap in
    write_proc c
      (record (k.procs c) {
        user_heap = record heap {
          free_pages_address = set heap.free_pages_address heap.free_pages_count va;
          free_pages_count = heap.free_pages_count + 1;
        };
      })
      k

pub push_free_page-pushed :
    (k : Kernel) (c va : ℕ)
    → (k.procs c).user_heap.free_pages_count < length (k.procs c).user_heap.free_pages_address
    → length (k.procs c).user_heap.free_pages_address ≡ max_heap_pages
    → push_free_page c va k ≡ ok tt (pushed k c va)
unfolding push_free_page
push_free_page-pushed k c va room size =
    let heap : HeapManager = (k.procs c).user_heap in
    let test : ltb heap.free_pages_count (length heap.free_pages_address) ≡ true =
      lt→ltb _ _ room in
    let count : (heap.free_pages_count + 1) % 2 ^ 32 ≡ heap.free_pages_count + 1 =
      omega (arith, room, size) in
    rw (test, count) refl

-- The state after the last page of the list has been handed out.
abbrev pub popped : Kernel → ℕ → ℕ → Kernel
popped k c n =
    write_proc c
      (record (k.procs c) { user_heap = record ((k.procs c).user_heap) { free_pages_count = n } }) k

pub pop_free_page-popped :
    (k : Kernel) (c va n : ℕ)
    → (k.procs c).user_heap.free_pages_count ≡ suc n
    → get_elem? (k.procs c).user_heap.free_pages_address n ≡ some va
    → va < (k.procs c).user_heap.heap_top
    → pop_free_page c k ≡ ok va (popped k c n)
unfolding pop_free_page
pop_free_page-popped k c va n count got below =
    let less : (k.procs c).user_heap.free_pages_count - 1 ≡ n = omega (arith, count) in
    rw (pop_free_page, less, got, lt→ltb va (k.procs c).user_heap.heap_top below) refl

-- The list of free pages of a heap, when it has room, is a stack: the page that was freed last,
-- if it lies below the top of the heap, is the next one to be handed out, with the count and the
-- top as before.
pub push_free_page-pop_free_page :
    (k : Kernel) (c va : ℕ)
    → (k.procs c).user_heap.free_pages_count < length (k.procs c).user_heap.free_pages_address
    → length (k.procs c).user_heap.free_pages_address ≡ max_heap_pages
    → va < (k.procs c).user_heap.heap_top
    → Returns
        (λ a t.
          (a ≡ va)
          × ((t.procs c).user_heap.free_pages_count ≡ (k.procs c).user_heap.free_pages_count)
          × ((t.procs c).user_heap.heap_top ≡ (k.procs c).user_heap.heap_top))
        (and_then (push_free_page c va k) λ _. pop_free_page c)
push_free_page-pop_free_page k c va room size below =
    let heap : HeapManager = (k.procs c).user_heap in
    let n : ℕ = heap.free_pages_count in
    let got : get_elem? (set heap.free_pages_address n va) n ≡ some va =
      get_elem?-set_self heap.free_pages_address n va room in
    let t : Kernel = pushed k c va in
    let pop : pop_free_page c t ≡ ok va (popped t c n) =
      pop_free_page-popped t c va n (rw (==_refl c) (omega arith)) (rw (==_refl c) got)
        (rw (==_refl c) below) in
    rw (push_free_page-pushed k c va room size, pop)
      (returns (refl, rw (==_refl c) refl, rw (==_refl c) refl))
