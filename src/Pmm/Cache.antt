-- ===== src/Pmm/Cache.antt =====
-- The per-CPU caches of kernel/pmm.c: alloc_page and pfree.
use pke.Base.{
  ℕ, zero, suc, ◌+◌, ◌-◌, ◌%◌, ◌^◌, Cmd, ok, halt, faulted, get, pure, ◌>>=◌, ◌>>◌, ◌==◌, ltb,
  if◌then◌else◌, set, get_elem?, length, none, some,
}
use pke.Pmm.State.{Pmm, Cache, load_page, on_area, addr_to_pfn, pfn_to_addr, pcpu_cache_size, ncpu}
use pke.Pmm.Buddy.{buddy_alloc, buddy_merge_inner, lock_acquire, lock_release}

-- `pcpu_caches[id]`; an index past the array is a fault.
unfoldable pub load_cache : ℕ → Cmd Pmm Cache
load_cache id m = if ltb id ncpu then ok (m.pcpu_caches id) m else halt faulted

abbrev pub write_cache : ℕ → Cache → Pmm → Pmm
write_cache id c m = record m { pcpu_caches = λ i. if i == id then c else m.pcpu_caches i }

unfoldable pub store_cache : ℕ → Cache → Cmd Pmm (Unit {0})
store_cache id c m = if ltb id ncpu then ok tt (write_cache id c m) else halt faulted

-- `objs[k]` and `objs[k] = p`, within the array.
unfoldable pub load_obj : Cache → ℕ → Cmd Pmm ℕ
load_obj c k m = elim (get_elem? c.objs k) [ none ↦ halt faulted | some p ↦ ok p m ]

unfoldable pub store_obj : Cache → ℕ → ℕ → Cmd Pmm Cache
store_obj c k p m =
    if ltb k (length c.objs) then ok (record c { objs = set c.objs k p }) m else halt faulted

-- `objs[count++] = PFN_TO_PAGE(ADDR_TO_PFN(buddy_alloc(0)))`, 16 times.
unfoldable pub refill : ℕ → ℕ → Cmd Pmm (Unit {0})
refill zero id = pure tt
refill (suc rounds) id = do
  addr ← buddy_alloc 0
  c ← load_cache id
  c' ← store_obj c c.count (addr_to_pfn addr)
  store_cache id (record c' { count = (c.count + 1) % 2 ^ 32 })
  refill rounds id

unfoldable pub refill_locked : ℕ → Cmd Pmm (Unit {0})
refill_locked id = do lock_acquire; refill 16 id; lock_release

unfoldable pub alloc_page : Cmd Pmm ℕ
alloc_page = do
  m ← get
  let cpu_id = m.tp
  c ← load_cache cpu_id
  (if c.count == 0 then refill_locked cpu_id else pure tt)
  d ← load_cache cpu_id
  let top = (d.count + 2 ^ 32 - 1) % 2 ^ 32
  store_cache cpu_id (record d { count = top })
  p ← load_obj d top
  pure (pfn_to_addr p)

-- `__buddy_merge_inner(objs[--count])`, 16 times.
unfoldable pub drain : ℕ → ℕ → Cmd Pmm (Unit {0})
drain zero id = pure tt
drain (suc rounds) id = do
  c ← load_cache id
  let top = (c.count + 2 ^ 32 - 1) % 2 ^ 32
  store_cache id (record c { count = top })
  p ← load_obj c top
  on_area (buddy_merge_inner p)
  drain rounds id

unfoldable pub drain_locked : ℕ → Cmd Pmm (Unit {0})
drain_locked id = do lock_acquire; drain 16 id; lock_release

-- disable_irqsave and enable_irqrestore of kernel/riscv.h on the interrupt bit of sstatus.
unfoldable pub disable_irqsave : Cmd Pmm ℕ
disable_irqsave m = ok m.sie (record m { sie = 0 })

unfoldable pub enable_irqrestore : ℕ → Cmd Pmm (Unit {0})
enable_irqrestore flags m = if flags == 0 then ok tt m else ok tt (record m { sie = 1 })

-- A page that does not start a block of order 0 goes back to the buddy system.
unfoldable pub pfree_block : ℕ → Cmd Pmm (Unit {0})
pfree_block p = do
  flags ← disable_irqsave
  lock_acquire
  on_area (buddy_merge_inner p)
  lock_release
  enable_irqrestore flags

-- A page of order 0 goes to the cache of the running hart.
unfoldable pub pfree_page : ℕ → Cmd Pmm (Unit {0})
pfree_page p = do
  flags ← disable_irqsave
  m ← get
  let id = m.tp
  c ← load_cache id
  (if c.count == pcpu_cache_size then drain_locked id else pure tt)
  d ← load_cache id
  let top = (d.count + 1) % 2 ^ 32
  d' ← store_obj d top p
  store_cache id (record d' { count = top })
  enable_irqrestore flags

unfoldable pub pfree : ℕ → Cmd Pmm (Unit {0})
pfree addr = do
  let p = addr_to_pfn addr
  q ← on_area (load_page p)
  (if q.order == 0 then pfree_page p else pfree_block p)
