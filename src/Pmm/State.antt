-- ===== src/Pmm/State.antt =====
-- The data of kernel/pmm.c: page descriptors, the buddy system, the per-CPU caches.
use pke.Base.{
  arith, ◌<◌, ◌≡◌, false, lt→ltb, le→ltb_false, ℕ, ◌+◌, ◌-◌, ◌*◌, ◌/◌, ◌%◌, ◌^◌, List, Run, Cmd, ok,
  to_user, halt, faulted, ◌==◌, ltb, if◌then◌else◌,
}
use pke.Pmm.Links.{node, Links, Node, max_order, node_to_page}

abbrev pub page_size : ℕ
page_size = 4096

abbrev pub dram_base : ℕ
dram_base = 0x8000_0000

abbrev pub pcpu_cache_size : ℕ
pcpu_cache_size = 32

abbrev pub ncpu : ℕ
ncpu = 1

-- `status` of `struct page`; each field is the value of its bit field.
pub record Page : Type 0 where
  pub is_free : ℕ
  pub is_head : ℕ
  pub order : ℕ
  pub alloc : ℕ
  pub cpu_id : ℕ
  pub ref : ℕ
  pub color : ℕ

-- The page descriptors `pages[0 .. nr_pages - 1]` and the links of the free lists.
pub record Area : Type 0 where
  pub pages : ℕ → Page
  pub links : Links
  pub nr_pages : ℕ

-- `percpu_cache_t`; a `page_t *` is the index of its page.
pub record Cache : Type 0 where
  pub objs : List ℕ
  pub count : ℕ

pub record Pmm : Type 0 where
  pub area : Area
  -- `main_buddy.buddy_lock.lock`
  pub lock : ℕ
  pub pcpu_caches : ℕ → Cache
  -- register tp of the running hart, and the interrupt enable bit of sstatus
  pub tp : ℕ
  pub sie : ℕ
  pub g_mem_size : ℕ
  pub free_mem_start_addr : ℕ
  pub free_mem_end_addr : ℕ
  pub buddy_start : ℕ
  pub buddy_end : ℕ

-- PFN_TO_ADDR and ADDR_TO_PFN, on 64-bit addresses.
unfoldable pub pfn_to_addr : ℕ → ℕ
pfn_to_addr pfn = (pfn * page_size + dram_base) % 2 ^ 64

unfoldable pub addr_to_pfn : ℕ → ℕ
addr_to_pfn addr = (addr + 2 ^ 64 - dram_base) % 2 ^ 64 / page_size

-- `pages[pfn]`; an index past the array is a fault.
unfoldable pub load_page : ℕ → Cmd Area Page
load_page pfn s = if ltb pfn s.nr_pages then ok (s.pages pfn) s else halt faulted

abbrev pub write_page : ℕ → Page → Area → Area
write_page pfn p s = record s { pages = λ q. if q == pfn then p else s.pages q }

unfoldable pub store_page : ℕ → Page → Cmd Area (Unit {0})
store_page pfn p s = if ltb pfn s.nr_pages then ok tt (write_page pfn p s) else halt faulted

abbrev pub with_links : (Links → Links) → Cmd Area (Unit {0})
with_links f s = ok tt (record s { links = f s.links })

-- NODE_TO_PAGE of a node; a list head lies in no page.
unfoldable pub page_of : Node → Cmd Area ℕ
page_of n s = if ltb n max_order then halt faulted else ok (node_to_page n) s

-- A command on the area within the whole allocator.
abbrev pub on_area_result : {A : Type 0} → Pmm → Run Area A → Run Pmm A
on_area_result m (ok a s) = ok a (record m { area = s })
on_area_result m (to_user s) = to_user (record m { area = s })
on_area_result m (halt h) = halt h

abbrev pub on_area : {A : Type 0} → Cmd Area A → Cmd Pmm A
on_area c m = on_area_result m (c m.area)

module _ (pfn : ℕ) (s : Area) where
  pub page_of-node : page_of (node pfn) s ≡ ok pfn s
  unfolding page_of
  page_of-node =
      let e : node pfn - max_order ≡ pfn = omega arith in
      let t : ltb (node pfn) max_order ≡ false = le→ltb_false _ _ (omega arith) in rw (t, e)

  pub load_page-ok : pfn < s.nr_pages → load_page pfn s ≡ ok (s.pages pfn) s
  unfolding load_page
  load_page-ok h = rw (lt→ltb pfn s.nr_pages h)

  pub store_page-ok :
      (p : Page) → pfn < s.nr_pages → store_page pfn p s ≡ ok tt (write_page pfn p s)
  unfolding store_page
  store_page-ok p h = rw (lt→ltb pfn s.nr_pages h)
