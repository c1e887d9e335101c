-- ===== src/Pmm/Reuse.antt =====
-- What alloc_page and pfree do to the cache of the running hart.
use pke.Base.{
  ℕ, suc, ◌+◌, ◌-◌, ◌*◌, ◌%◌, ◌^◌, ◌<◌, ◌≡◌, refl, ◌∙◌, true, false, ◌==◌, ltb, lt→ltb, arith, ok,
  halt, spinning, faulted, some, List, get_elem?, set, length, get_elem?-set_ne, get_elem?-set_self,
  ◌≢◌, and_then, Returns, returns, Bool-cases, inl, inr,
}
use pke.Pmm.State.{
  Pmm, Cache, page_size, dram_base, pfn_to_addr, addr_to_pfn, load_page-ok, pcpu_cache_size,
}
use pke.Pmm.Buddy.{lock_acquire, buddy_alloc}
use pke.Pmm.Alloc.{IsSmall, pfn_to_addr_lem}
use pke.Pmm.RoundTrip.{addr_to_pfn_lem}
use pke.Pmm.Cache.{
  load_cache, store_cache, write_cache, load_obj, store_obj, refill, refill_locked, alloc_page,
  disable_irqsave, enable_irqrestore, pfree_page, pfree,
}

pub refill_locked-spins : (id : ℕ) (m : Pmm) → refill_locked id m ≡ halt spinning
unfolding refill_locked refill lock_acquire buddy_alloc
refill_locked-spins id m = elim (Bool-cases (m.lock == 0)) [
  | inl unlocked ↦ rw (lock_acquire, unlocked) refl
  | inr locked ↦ rw (lock_acquire, locked) refl
]

load_cache-hart : (m : Pmm) → m.tp ≡ 0 → load_cache m.tp m ≡ ok (m.pcpu_caches 0) m
unfolding load_cache
load_cache-hart m hart = rw hart refl

store_cache-hart :
    (m : Pmm) (c : Cache) → m.tp ≡ 0 → store_cache m.tp c m ≡ ok tt (write_cache 0 c m)
unfolding store_cache
store_cache-hart m c hart = rw hart refl

-- On hart 0, alloc_page with an empty cache takes the lock of the buddy system and calls
-- buddy_alloc, which waits for the same lock: the call never comes back, whatever memory is free
-- and whether the lock was free or not.
pub alloc_page-spins :
    (m : Pmm) → m.tp ≡ 0 → (m.pcpu_caches 0).count ≡ 0 → alloc_page m ≡ halt spinning
unfolding alloc_page
alloc_page-spins m hart empty =
    let test : ((m.pcpu_caches 0).count == 0) ≡ true = rw empty refl in
    rw (load_cache-hart m hart, test, refill_locked-spins m.tp m) refl

load_obj-some :
    (c : Cache) (k p : ℕ) (m : Pmm) → get_elem? c.objs k ≡ some p → load_obj c k m ≡ ok p m
unfolding load_obj
load_obj-some c k p m obj = rw (load_obj, obj) refl

-- On hart 0, alloc_page with pages in the cache hands out the object below `count`, lowers
-- `count` by one and changes nothing else.
pub alloc_page-pops :
    (m : Pmm) (c p : ℕ)
    → m.tp ≡ 0
    → (m.pcpu_caches 0).count ≡ suc c
    → suc c < 2 ^ 32
    → get_elem? (m.pcpu_caches 0).objs c ≡ some p
    → alloc_page m ≡ ok (pfn_to_addr p) (write_cache 0 (record (m.pcpu_caches 0) { count = c }) m)
unfolding alloc_page
alloc_page-pops m c p hart count small obj =
    let test : ((m.pcpu_caches 0).count == 0) ≡ false = ground (arith, count) in
    let top : ((m.pcpu_caches 0).count + 2 ^ 32 - 1) % 2 ^ 32 ≡ c = omega (arith, count) in
    rw
      (
        load_cache-hart m hart,
        test,
        load_cache-hart m hart,
        top,
        store_cache-hart m (record (m.pcpu_caches 0) { count = c }) hart,
        load_obj-some (m.pcpu_caches 0) c p _ obj,
      )
      refl

-- The state after pfree of the page `pfn` into the cache: it stands one slot above `count`.
abbrev pub returned : Pmm → ℕ → ℕ → Pmm
returned m c pfn =
    write_cache 0 (record { objs = set (m.pcpu_caches 0).objs (c + 1) pfn; count = c + 1 }) m

-- pfree of a page of order 0 with room in the cache, interrupts off.
pub pfree-returned :
    (m : Pmm) (c pfn : ℕ)
    → m.tp ≡ 0
    → m.sie ≡ 0
    → (m.pcpu_caches 0).count ≡ c
    → c + 1 < length (m.pcpu_caches 0).objs
    → length (m.pcpu_caches 0).objs ≡ pcpu_cache_size
    → IsSmall m.area
    → pfn < m.area.nr_pages
    → (m.area.pages pfn).order ≡ 0
    → pfree (pfn * page_size + dram_base) m ≡ ok tt (record (returned m c pfn) { sie = 0 })
unfolding pfree pfree_page disable_irqsave enable_irqrestore store_obj
pfree-returned m c pfn hart off count room size small hp order =
    let e : addr_to_pfn (pfn * page_size + dram_base) ≡ pfn =
      addr_to_pfn_lem pfn (omega (arith, small)) in
    let zero_order : ((m.area.pages pfn).order == 0) ≡ true = rw order refl in
    let not_full : ((m.pcpu_caches 0).count == pcpu_cache_size) ≡ false = ground arith in
    let top : ((m.pcpu_caches 0).count + 1) % 2 ^ 32 ≡ c + 1 = omega (arith, count, room, size) in
    let fits : ltb (c + 1) (length (m.pcpu_caches 0).objs) ≡ true = lt→ltb _ _ room in
    let n : Pmm = record m { sie = 0 } in
    let objs : List ℕ = set (m.pcpu_caches 0).objs (c + 1) pfn in
    let flags : (m.sie == 0) ≡ true = rw off refl in
    rw
      (
        e,
        load_page-ok pfn m.area hp,
        zero_order,
        load_cache-hart n hart,
        not_full,
        load_cache-hart n hart,
        top,
        fits,
        store_cache-hart n (record { objs = objs; count = c + 1 }) hart,
        flags,
      )
      refl

-- On hart 0 with interrupts off, pfree of a page of order 0 into a cache with `c` pages and room for
-- two more, whose slot `c` holds another page of the descriptors, which are at most 2 ^ 51: the freed
-- page goes to slot `c + 1`, so that the alloc_page after it hands out that other page, not the freed
-- one; the count is then `c` again, and the freed page still stands in slot `c + 1`.
pub pfree-alloc_page :
    (m : Pmm) (c pfn stale : ℕ)
    → m.tp ≡ 0
    → m.sie ≡ 0
    → (m.pcpu_caches 0).count ≡ c
    → c + 1 < pcpu_cache_size
    → length (m.pcpu_caches 0).objs ≡ pcpu_cache_size
    → IsSmall m.area
    → pfn < m.area.nr_pages
    → (m.area.pages pfn).order ≡ 0
    → get_elem? (m.pcpu_caches 0).objs c ≡ some stale
    → stale < m.area.nr_pages
    → stale ≢ pfn
    → Returns
        (λ a t.
          (a ≡ stale * page_size + dram_base)
          × (a ≢ pfn * page_size + dram_base)
          × ((t.pcpu_caches 0).count ≡ c)
          × (get_elem? (t.pcpu_caches 0).objs (c + 1) ≡ some pfn))
        (and_then (pfree (pfn * page_size + dram_base) m) λ _. alloc_page)
pfree-alloc_page m c pfn stale hart off count room size small hp order obj in_area other =
    let t : Pmm = record (returned m c pfn) { sie = 0 } in
    let kept : get_elem? (set (m.pcpu_caches 0).objs (c + 1) pfn) c ≡ some stale =
      get_elem?-set_ne (m.pcpu_caches 0).objs pfn (λ e. absurd (omega (arith, e))) ∙ obj in
    let put : get_elem? (set (m.pcpu_caches 0).objs (c + 1) pfn) (c + 1) ≡ some pfn =
      get_elem?-set_self (m.pcpu_caches 0).objs (c + 1) pfn (omega (arith, room, size)) in
    let freed =
      pfree-returned m c pfn hart off count (omega (arith, room, size)) size small hp order in
    let page = pfn_to_addr_lem stale (omega (arith, small, in_area)) in
    rw (freed, alloc_page-pops t c stale hart (omega arith) (omega arith) kept)
      (returns (page, λ e. other (omega (arith, e, page)), refl, put))

-- On hart 0, pfree of a page of order 0 into a cache with one free slot left writes past the end
-- of the cache.
pub pfree-faults :
    (m : Pmm) (pfn : ℕ)
    → m.tp ≡ 0
    → (m.pcpu_caches 0).count ≡ 31
    → length (m.pcpu_caches 0).objs ≡ pcpu_cache_size
    → IsSmall m.area
    → pfn < m.area.nr_pages
    → (m.area.pages pfn).order ≡ 0
    → pfree (pfn * page_size + dram_base) m ≡ halt faulted
unfolding pfree pfree_page disable_irqsave store_obj
pfree-faults m pfn hart count size small hp order =
    let e : addr_to_pfn (pfn * page_size + dram_base) ≡ pfn =
      addr_to_pfn_lem pfn (omega (arith, small)) in
    let zero_order : ((m.area.pages pfn).order == 0) ≡ true = rw order refl in
    let n : Pmm = record m { sie = 0 } in
    rw
      (
        e,
        load_page-ok pfn m.area hp,
        zero_order,
        load_cache-hart n hart,
        count,
        load_cache-hart n hart,
        count,
        size,
      )
      refl
