-- ===== src/Trap/Fault.antt =====
-- The page fault handler of kernel/strap.c on a page that is marked for copy on write.
use pke.Base.{
  ◌+◌, ◌-◌, ◌%◌, ◌/◌, ◌^◌, ◌<◌, ◌≢◌, ◌⊎◌, ◌&&◌, ◌==◌, leb, arith, if◌then◌else◌, lt→ltb, ap, ◌∙◌,
  Returns, returns, ℕ, ◌≡◌, ◌≤◌, refl, Option, some, true, false, ok, Cmd, ltb, le→ltb_false,
  ne→==_false,
}
use pke.Pmm.State.{Pmm, page_size}
use pke.Pmm.Cache.{alloc_page, pfree}
use pke.Kernel.{Kernel, deref, load, store, copy_words, on_pmm, on_pmm_result, write_mem}
use pke.Sched.Next.{Image}
use pke.Vmm.Walk.{entry}
use pke.Vmm.Maps.{lookup_pa}
use pke.Trap.Cow.{owned_entry_lem, unshared_entry_lem, with_bit, without_bit}
use pke.Vmm.Pte.{pte_v, pte_r, pte_w, pte_cow, has_flag, pte_to_pa}
use pke.Vmm.Lookup.{
  Reaches, Reaches-agree, Reaches-write, page_walk-leaf, lookup_pa-valid, has_flag-v, has_flag-r,
  has_flag-v_bit, has_flag-r_bit,
}
use pke.Trap.Handler.{
  cause_store_page_fault, copy_page, owned_entry, unshare_page, unshared_entry, store_fault,
  handle_user_page_fault,
}

deref-some : (o : Option ℕ) (c : ℕ) (k : Kernel) → o ≡ some c → deref o k ≡ ok c k
unfolding deref
deref-some o c k e = rw e refl

-- What a write to a page with one reader leaves: the entry of the page is writable and unmarked,
-- and else as it was.
pub record Unshared (k : Kernel) (page_dir va leaf : ℕ) (t : Kernel) : Type 0 where
  pub word : t.mem leaf ≡ without_bit 8 (with_bit 2 (k.mem leaf))
  pub writable : has_flag (t.mem leaf) pte_w ≡ true
  pub unmarked : t.mem leaf / 2 ^ 8 % 2 ≡ 0
  pub mapped : lookup_pa page_dir va t ≡ ok (pte_to_pa (k.mem leaf)) t
  pub others : (a : ℕ) → a ≢ leaf → t.mem a ≡ k.mem a
  pub pmm : t.pmm ≡ k.pmm
  pub procs : t.procs ≡ k.procs

-- A write to a page whose entry is valid, readable and marked PTE_COW, when get_page_ref counts at
-- most one reader: bit 2 of the entry, PTE_W, is then set, bit 8, PTE_COW, is clear and every other
-- bit is as before, so that the address still leads to the same page; no other word of memory, no
-- page of the allocator and no process changes.
pub handle_user_page_fault-Unshared :
    (im : Image) (get_page : ℕ → Cmd Kernel (Unit {0})) (get_page_ref : ℕ → Kernel → ℕ) (k : Kernel)
    (c stval leaf : ℕ)
    → k.current ≡ some c
    → Reaches k (k.procs c).pagetable stval leaf
    → k.mem leaf < 2 ^ 64
    → has_flag (k.mem leaf) pte_v ≡ true
    → has_flag (k.mem leaf) pte_r ≡ true
    → has_flag (k.mem leaf) pte_cow ≡ true
    → get_page_ref (pte_to_pa (k.mem leaf)) k ≤ 1
    → Returns
        (λ _ t. Unshared k (k.procs c).pagetable stval leaf t)
        (handle_user_page_fault im get_page get_page_ref cause_store_page_fault stval k)
unfolding handle_user_page_fault store_fault unshare_page load store
handle_user_page_fault-Unshared im get_page get_page_ref k c stval leaf running r small valid
      readable marked one =
    let w : ℕ = k.mem leaf in
    let o : ℕ = unshared_entry w in
    let (bits, page, flag, clear, v, rd) = unshared_entry_lem w small in
    let t : Kernel = write_mem leaf o k in
    let there : t.mem leaf ≡ o = ground arith in
    rw
      (
        deref-some k.current c k running,
        page_walk-leaf false r,
        ne→==_false leaf 0 r.not_null,
        valid,
        marked,
        le→ltb_false _ _ one,
      )
      (returns (record {
        word = there ∙ bits;
        writable = ap (λ (x : ℕ). has_flag x pte_w) there ∙ flag;
        unmarked = ap (λ (x : ℕ). x / 2 ^ 8 % 2) there ∙ clear;
        mapped =
            lookup_pa-valid (Reaches-write o r)
              (ap (λ (x : ℕ). has_flag x pte_v) there ∙ has_flag-v o (v ∙ has_flag-v_bit w valid))
              (ap (λ (x : ℕ). has_flag x pte_r) there
                ∙ has_flag-r o (rd ∙ has_flag-r_bit w readable))
            ∙ ap (λ (a : ℕ). ok a t) (ap pte_to_pa there ∙ page);
        others = λ a ne. rw (ne→==_false a leaf ne) refl;
        pmm = refl;
        procs = refl;
      }))

-- Below or behind the page at `page`.
abbrev pub Outside : ℕ → ℕ → Type 0
Outside a page = (a < page) ⊎ (page + page_size ≤ a)

Outside-test : (a page : ℕ) → Outside a page → (leb page a && ltb a (page + page_size)) ≡ false
Outside-test a page o = ground arith

-- What a write to a shared page leaves: the copy at `new_pa`, mapped for the writer.
pub record Copied (k : Kernel) (page_dir va leaf new_pa : ℕ) (after : Pmm) (t : Kernel)
    : Type 0 where
  pub copy : (i : ℕ) → i < page_size → t.mem (new_pa + i) ≡ k.mem (pte_to_pa (k.mem leaf) + i)
  pub mapped : lookup_pa page_dir va t ≡ ok new_pa t
  pub writable : has_flag (t.mem leaf) pte_w ≡ true
  pub unmarked : t.mem leaf / 2 ^ 8 % 2 ≡ 0
  pub others : (a : ℕ) → a ≢ leaf → Outside a new_pa → t.mem a ≡ k.mem a
  pub pmm : t.pmm ≡ after
  pub procs : t.procs ≡ k.procs

-- A write to a page that is marked PTE_COW and that several processes read, when alloc_page gives a
-- page below 2 ^ 56 that has no part in the writer's tables for the address and pfree takes the old
-- page: the new page holds the bytes of the old one and is mapped for the writer, writable and
-- unmarked; no other memory and no process changes.
pub handle_user_page_fault-Copied :
    (im : Image) (get_page : ℕ → Cmd Kernel (Unit {0})) (get_page_ref : ℕ → Kernel → ℕ) (k : Kernel)
    (c stval leaf new_pa : ℕ) (drawn after : Pmm)
    → k.current ≡ some c
    → (r : Reaches k (k.procs c).pagetable stval leaf) → has_flag (k.mem leaf) pte_v ≡ true
    → has_flag (k.mem leaf) pte_r ≡ true
    → has_flag (k.mem leaf) pte_cow ≡ true
    → 1 < get_page_ref (pte_to_pa (k.mem leaf)) k
    → alloc_page k.pmm ≡ ok new_pa drawn
    → pfree (pte_to_pa (k.mem leaf)) drawn ≡ ok tt after
    → new_pa ≢ 0
    → new_pa % page_size ≡ 0
    → new_pa < 2 ^ 56
    → Outside leaf new_pa
    → Outside (entry (k.procs c).pagetable 2 stval) new_pa
    → Outside (entry r.walks.medium 1 stval) new_pa
    → Returns
        (λ _ t. Copied k (k.procs c).pagetable stval leaf new_pa after t)
        (handle_user_page_fault im get_page get_page_ref cause_store_page_fault stval k)
unfolding handle_user_page_fault store_fault copy_page copy_words load store on_pmm on_pmm_result
handle_user_page_fault-Copied im get_page get_page_ref k c stval leaf new_pa drawn after running r
      valid readable marked many draw freed not_null aligned small off_leaf off_top off_medium =
    let w : ℕ = k.mem leaf in
    let o : ℕ = owned_entry new_pa w in
    let (page, flag, clear, v, rd) = owned_entry_lem new_pa w aligned small in
    let s : Kernel = record k {
      pmm = drawn;
      mem = λ b.
          if leb new_pa b && ltb b (new_pa + page_size)
          then k.mem (pte_to_pa w + (b - new_pa))
          else k.mem b;
    } in
    let t : Kernel = record (write_mem leaf o s) { pmm = after } in
    let kept : s.mem leaf ≡ w = rw (Outside-test leaf new_pa off_leaf) refl in
    let rt : Reaches t (k.procs c).pagetable stval leaf =
      Reaches-agree r (rw (ne→==_false _ _ r.not_top, Outside-test _ new_pa off_top) refl)
        (rw (ne→==_false _ _ r.not_medium, Outside-test _ new_pa off_medium) refl) in
    let there : t.mem leaf ≡ o = ground arith in
    rw
      (
        deref-some k.current c k running,
        page_walk-leaf false r,
        ne→==_false leaf 0 r.not_null,
        valid,
        marked,
        lt→ltb _ _ many,
        draw,
        ne→==_false new_pa 0 not_null,
        kept,
        freed,
      )
      (returns (record {
        copy = λ i lt.
            let ne : (new_pa + i == leaf) ≡ false = ground arith in
            let inside : (leb new_pa (new_pa + i) && ltb (new_pa + i) (new_pa + page_size)) ≡ true =
              ground arith in
            let e : new_pa + i - new_pa ≡ i = omega arith in rw (ne, inside, e) refl;
        mapped =
            lookup_pa-valid rt
              (ap (λ (x : ℕ). has_flag x pte_v) there ∙ has_flag-v o (v ∙ has_flag-v_bit w valid))
              (ap (λ (x : ℕ). has_flag x pte_r) there
                ∙ has_flag-r o (rd ∙ has_flag-r_bit w readable))
            ∙ ap (λ (a : ℕ). ok a t) (ap pte_to_pa there ∙ page);
        writable = ap (λ (x : ℕ). has_flag x pte_w) there ∙ flag;
        unmarked = ap (λ (x : ℕ). x / 2 ^ 8 % 2) there ∙ clear;
        others = λ a ne out. rw (ne→==_false a leaf ne, Outside-test a new_pa out) refl;
        pmm = refl;
        procs = refl;
      }))
