-- ===== src/Heap/Calls.antt =====
-- sys_user_allocate_page and sys_user_free_page of kernel/syscall.c as a whole.
use pke.Base.{
  ℕ, suc, ◌+◌, ◌*◌, ◌/◌, ◌%◌, ◌^◌, ◌<◌, ◌≡◌, ◌≢◌, refl, sym, ap, subst, ◌∙◌, true, false, ltb,
  ==_refl, arith, some, Option, ok, get_elem?, get_elem?-set_self, Returns, returns, bit_or,
  ne→==_false,
}
use pke.Pmm.State.{Pmm, page_size}
use pke.Pmm.Cache.{alloc_page, pfree}
use pke.Kernel.{
  HeapManager, Kernel, max_heap_pages, write_proc, write_mem, deref, load, store, on_pmm,
  on_pmm_result,
}
use pke.Vmm.Pte.{pte_v, has_flag, pte_to_pa, prot_to_type, prot_read, prot_write}
use pke.Vmm.Maps.{lookup_pa, user_vm_map}
use pke.Vmm.Lookup.{
  Off, Reaches, Reaches-agree, Reaches-write, Mappable, leaf_word, lookup_pa-leaf, map_pages-leaf,
}
use pke.Vmm.Unmap.{unmapped, lookup_pa-zero, user_vm_unmap-leaf}
use pke.Process.Pool.{region, heap_segment}
use pke.Trap.Syscall.{grow_heap, sys_user_allocate_page, sys_user_free_page}
use pke.Heap.Manager.{popped, pop_free_page-popped, pushed, push_free_page-pushed}
use pke.Heap.Pages.{
  InUse, IsHeap, Adds, grown_heap, push_heap-Adds, push_heap-IsHeap, pop_heap-Adds, grown_heap-Adds,
}

-- The page that the next call hands out: the last of the list, or the one behind the top.
pub data Next (h : HeapManager) (va : ℕ) : Type 0 where
  last_freed :
      (n : ℕ) → h.free_pages_count ≡ suc n → get_elem? h.free_pages_address n ≡ some va → Next h va
  at_top : h.free_pages_count ≡ 0 → va ≡ h.heap_top → Next h va

-- PTE_R, PTE_W, PTE_U, PTE_A and PTE_D.
heap_flags : prot_to_type (bit_or prot_write prot_read) true ≡ 0xd6
unfolding prot_to_type has_flag
heap_flags = refl

heap_Mappable : (pa : ℕ) → pa % page_size ≡ 0 → pa < 2 ^ 56 → Mappable pa 0xd6
unfolding has_flag
heap_Mappable pa aligned small = record {
  aligned = aligned;
  small = small;
  flags = omega arith;
  readable = refl;
}

user_vm_map-leaf :
    (k : Kernel) (page_dir va leaf pa perm : ℕ)
    → Reaches k page_dir va leaf
    → va % page_size ≡ 0
    → has_flag (k.mem leaf) pte_v ≡ false
    → user_vm_map page_dir va page_size pa perm k ≡ ok tt (write_mem leaf (leaf_word pa perm) k)
unfolding user_vm_map
user_vm_map-leaf k page_dir va leaf pa perm r aligned empty =
    rw (map_pages-leaf k page_dir va leaf pa perm r aligned empty) refl

deref-some : (o : Option ℕ) (c : ℕ) (k : Kernel) → o ≡ some c → deref o k ≡ ok c k
unfolding deref
deref-some o c k e = rw e refl

-- The heap grows: its top, and the number of pages of its region.
abbrev grown : Kernel → ℕ → Kernel
grown k c =
    let word : ℕ = region (k.procs c).mapped_info heap_segment + 8 in
    let w : ℕ = k.mem word in
    write_mem word ((w % 2 ^ 32 + 1) % 2 ^ 32 + w / 2 ^ 32 * 2 ^ 32)
      (write_proc c (record (k.procs c) { user_heap = grown_heap (k.procs c).user_heap }) k)

grow_heap-grown :
    (k : Kernel) (c : ℕ)
    → (k.procs c).user_heap.heap_top + page_size < 2 ^ 64
    → grow_heap c k ≡ ok (k.procs c).user_heap.heap_top (grown k c)
unfolding grow_heap load store
grow_heap-grown k c small =
    let e : ((k.procs c).user_heap.heap_top + page_size) % 2 ^ 64
        ≡ (k.procs c).user_heap.heap_top + page_size =
      omega (arith, small) in
    rw e refl

-- What a call of process `c` that hands out `va`, mapped to `pa`, has done.
pub record Allocated (k : Kernel) (c va pa : ℕ) (after : Pmm) (a : ℕ) (t : Kernel) : Type 0 where
  pub page : a ≡ va
  pub adds : Adds (k.procs c).user_heap va (t.procs c).user_heap
  pub heap : IsHeap (t.procs c).user_heap
  pub mapped : lookup_pa (k.procs c).pagetable va t ≡ ok pa t
  pub others : (p : ℕ) → p ≢ c → t.procs p ≡ k.procs p
  pub pmm : t.pmm ≡ after

module _ (k : Kernel) (c va leaf : ℕ) (after : Pmm) (running : k.current ≡ some c)
    (v : IsHeap (k.procs c).user_heap) where
  abbrev table : ℕ
  table = (k.procs c).pagetable

  abbrev region_word : ℕ
  region_word = region (k.procs c).mapped_info heap_segment + 8

  -- sys_user_allocate_page in a process whose heap is in order, when alloc_page gives a page below
  -- 2 ^ 56 and the tables for the next page of the heap are there, apart from the process's
  -- regions, with no valid entry: it returns the last page of the list of free pages, or the one
  -- behind the top of the heap when the list is empty. This page was not in use and is now, no
  -- other page of the heap changes, the heap is in order, the page is mapped to the one of
  -- alloc_page, and no other process changes.
  pub sys_user_allocate_page-Allocated :
      (pa : ℕ)
      → Next (k.procs c).user_heap va
      → alloc_page k.pmm ≡ ok pa after
      → pa % page_size ≡ 0
      → pa < 2 ^ 56
      → (r : Reaches k table va leaf) → Off r region_word
      → leaf ≢ region_word
      → has_flag (k.mem leaf) pte_v ≡ false
      → Returns (Allocated k c va pa after) (sys_user_allocate_page k)
  unfolding sys_user_allocate_page on_pmm on_pmm_result
  sys_user_allocate_page-Allocated pa (last_freed n count last) drawn aligned small r off apart
        empty =
      let s : Kernel = record k { pmm = after } in
      let (lo, hi, al) = v.listed n va (omega (arith, count)) last in
      let (adds, valid) = pop_heap-Adds (k.procs c).user_heap va v n count last in
      let more : ltb 0 (k.procs c).user_heap.free_pages_count ≡ true = ground (arith, count) in
      let t : Kernel = popped s c n in
      let rt : Reaches t table va leaf = Reaches-agree r refl refl in
      let u : Kernel = write_mem leaf (leaf_word pa 0xd6) t in
      rw
        (
          drawn,
          deref-some k.current c s running,
          more,
          pop_free_page-popped s c va n count last hi,
          heap_flags,
          user_vm_map-leaf t table va leaf pa 0xd6 rt al empty,
        )
        (returns (record {
          page = refl;
          adds = rw (==_refl c) adds;
          heap = rw (==_refl c) valid;
          mapped =
              lookup_pa-leaf u table va leaf pa 0xd6 (heap_Mappable pa aligned small) (ground arith)
                (Reaches-write (leaf_word pa 0xd6) rt);
          others = λ p ne. rw (ne→==_false p c ne) refl;
          pmm = refl;
        }))
  sys_user_allocate_page-Allocated pa (at_top count top) drawn aligned small r off apart empty =
      let h : HeapManager = (k.procs c).user_heap in
      let s : Kernel = record k { pmm = after } in
      let (adds, valid) = grown_heap-Adds h v in
      let none_listed : ltb 0 h.free_pages_count ≡ false = ground (arith, count) in
      let t : Kernel = grown s c in
      let run : grow_heap c s ≡ ok va t =
        grow_heap-grown s c (omega (arith, r.below, top)) ∙ ap (λ (a : ℕ). ok a t) (sym top) in
      let rt : Reaches t table va leaf =
        Reaches-agree r (rw (ne→==_false _ _ off.not_top) refl)
          (rw (ne→==_false _ _ off.not_medium) refl) in
      let u : Kernel = write_mem leaf (leaf_word pa 0xd6) t in
      let still_empty : has_flag (t.mem leaf) pte_v ≡ false = rw (ne→==_false _ _ apart) empty in
      rw
        (
          drawn,
          deref-some k.current c s running,
          none_listed,
          run,
          heap_flags,
          user_vm_map-leaf t table va leaf pa 0xd6 rt (omega (arith, top, v.top_aligned))
              still_empty,
        )
        (returns (record {
          page = refl;
          adds = rw (==_refl c) (subst (λ (a : ℕ). Adds h a (grown_heap h)) (sym top) adds);
          heap = rw (==_refl c) valid;
          mapped =
              lookup_pa-leaf u table va leaf pa 0xd6 (heap_Mappable pa aligned small) (ground arith)
                (Reaches-write (leaf_word pa 0xd6) rt);
          others = λ p ne. rw (ne→==_false p c ne) refl;
          pmm = refl;
        }))

  -- sys_user_free_page of a page in use, in a process whose heap is in order with room on the list
  -- of free pages, when pfree takes the physical page back: exactly this page is no longer in use,
  -- the heap is in order, the page is not mapped any more and is the next that will be handed out;
  -- no other word of memory and no other process changes.
  pub sys_user_free_page-Freed :
      InUse (k.procs c).user_heap va
      → (k.procs c).user_heap.free_pages_count < max_heap_pages
      → Reaches k table va leaf
      → has_flag (k.mem leaf) pte_v ≡ true
      → pfree (pte_to_pa (k.mem leaf)) k.pmm ≡ ok tt after
      → Returns
          (λ _ t.
            Adds (t.procs c).user_heap va (k.procs c).user_heap
            × IsHeap (t.procs c).user_heap
            × (lookup_pa table va t ≡ ok 0 t)
            × Next (t.procs c).user_heap va
            × ((p : ℕ) → p ≢ c → t.procs p ≡ k.procs p)
            × (t.pmm ≡ after)
            × ((a : ℕ) → a ≢ leaf → t.mem a ≡ k.mem a))
          (sys_user_free_page va k)
  unfolding sys_user_free_page
  sys_user_free_page-Freed u room r valid freed =
      let h : HeapManager = (k.procs c).user_heap in
      let s : Kernel = unmapped k leaf after in
      let t : Kernel = pushed s c va in
      let rt : Reaches t table va leaf = Reaches-agree (Reaches-write 0 r) refl refl in
      rw
        (
          deref-some k.current c k running,
          user_vm_unmap-leaf k table va leaf after r u.aligned valid freed,
          push_free_page-pushed s c va (omega (arith, v.size, room)) v.size,
        )
        (returns (
          rw (==_refl c) (push_heap-Adds h va v u room),
          rw (==_refl c) (push_heap-IsHeap h va v u room),
          lookup_pa-zero rt (ground arith),
          rw (==_refl c) (
              last_freed h.free_pages_count (omega arith) (
                get_elem?-set_self h.free_pages_address h.free_pages_count va
                  (omega (arith, v.size, room)))),
          λ p ne. rw (ne→==_false p c ne) refl,
          refl,
          λ a ne. ground arith,
        ))
