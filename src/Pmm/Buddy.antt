-- ===== src/Pmm/Buddy.antt =====
-- The buddy system of kernel/pmm.c: buddy_split, buddy_alloc, __buddy_merge_inner, buddy_free.
use pke.Base.{
  ℕ, zero, suc, ◌+◌, ◌-◌, ◌%◌, ◌^◌, bit_and, bit_xor, not, ◌||◌, Cmd, ok, halt, panicked, spinning,
  get, pure, stop, ◌>>=◌, ◌>>◌, ensure, ◌==◌, ltb, leb, if◌then◌else◌,
}
use pke.Pmm.Links.{head, node, max_order, list_add, list_del, list_pop}
use pke.Pmm.State.{
  Area, Pmm, load_page, store_page, with_links, page_of, on_area, pfn_to_addr, addr_to_pfn,
}

-- One round of the loop in buddy_split: the first block of order `i` becomes two of order `i - 1`.
unfoldable pub split_once : ℕ → Cmd Area (Unit {0})
split_once i = do
  s ← get
  let n = s.links.next (head i)
  with_links (λ l. list_pop l (head i))
  p ← page_of n
  let bud = p + 2 ^ (i - 1)
  b ← load_page bud
  store_page bud (record b { alloc = 0; is_free = 1; is_head = 1; order = (i - 1) % 32 })
  with_links (λ l. list_add l (head (i - 1)) (node bud) (node bud))
  q ← load_page p
  store_page p (record q { order = (i - 1) % 32 })
  with_links (λ l. list_add l (head (i - 1)) n n)

-- `for (i = big_order; i > target_order; i--)`, with the number of rounds left.
unfoldable pub split_loop : ℕ → ℕ → Cmd Area (Unit {0})
split_loop zero i = pure tt
split_loop (suc rounds) i = split_once i >> split_loop rounds (i - 1)

unfoldable pub buddy_split : ℕ → ℕ → Cmd Area (Unit {0})
unfolding split_loop
buddy_split big_order target_order = split_loop (big_order - target_order) big_order

-- lock_acquire on the only hart: a lock that is held is waited for, and nobody can release it.
unfoldable pub lock_acquire : Cmd Pmm (Unit {0})
lock_acquire m = if m.lock == 0 then ok tt (record m { lock = 1 }) else halt spinning

unfoldable pub lock_release : Cmd Pmm (Unit {0})
lock_release m = ok tt (record m { lock = 0 })

-- The first block of list `order` leaves the buddy system; the lock is given back before its
-- descriptor is written.
unfoldable pub take_first : ℕ → Cmd Pmm ℕ
unfolding lock_release
take_first order = do
  m ← get
  let n = m.area.links.next (head order)
  on_area (with_links (λ l. list_pop l (head order)))
  p ← on_area (page_of n)
  lock_release
  q ← on_area (load_page p)
  on_area (store_page p (record q { is_free = 0; alloc = 1 }))
  pure (pfn_to_addr p)

-- The body of the loop in buddy_alloc once a block of order `i` is there.
unfoldable pub take_block : ℕ → ℕ → Cmd Pmm ℕ
take_block order i = do
  (if ltb order i then on_area (buddy_split i order) else pure tt)
  take_first order

-- `for (i = order; i < MAX_ORDER; ++i)`, with the number of rounds left.
unfoldable pub alloc_loop : ℕ → ℕ → ℕ → Cmd Pmm ℕ
unfolding take_block
alloc_loop order zero i m = (lock_release >> stop panicked) m
alloc_loop order (suc rounds) i m =
    let rest = alloc_loop order rounds (i + 1) m in
    if m.area.links.next (head i) == head i then rest else take_block order i m

unfoldable pub buddy_alloc : ℕ → Cmd Pmm ℕ
unfolding lock_acquire alloc_loop
buddy_alloc order = do
  ensure (ltb order max_order) panicked
  lock_acquire
  alloc_loop order (max_order - order) order

-- `~(1ULL << order)`
abbrev pub clear_mask : ℕ → ℕ
clear_mask order = 2 ^ 64 - 1 - 2 ^ order

-- The loop of __buddy_merge_inner at page `pfn`, with the number of orders left. It returns the
-- page and the order at which it stops.
unfoldable pub merge_loop : ℕ → ℕ → ℕ → Cmd Area (ℕ × ℕ)
merge_loop zero pfn order = pure (pfn, order)
merge_loop (suc rounds) pfn order = do
  let my_buddy = bit_xor pfn (2 ^ order)
  b ← load_page my_buddy
  (if not (b.order == order) || not (b.is_free == 1) || not (b.is_head == 1)
      then pure (pfn, order)
      else do
        with_links (λ l. list_del l (node my_buddy))
        store_page my_buddy (record b { is_free = 0; is_head = 0 })
        let merged = bit_and pfn (clear_mask order)
        q ← load_page merged
        store_page merged (record q { order = (order + 1) % 32 })
        merge_loop rounds merged (order + 1))

unfoldable pub buddy_merge_inner : ℕ → Cmd Area (Unit {0})
unfolding merge_loop
buddy_merge_inner pfn = do
  p ← load_page pfn
  store_page pfn (record p { is_free = 0; is_head = 0; alloc = 0 })
  (last, order) ← merge_loop (max_order - 1 - p.order) pfn p.order
  q ← load_page last
  store_page last (record q { is_free = 1; is_head = 1; alloc = 0 })
  with_links (λ l. list_add l (head order) (node last) (node last))

unfoldable pub buddy_free : ℕ → Cmd Pmm (Unit {0})
unfolding lock_acquire lock_release buddy_merge_inner
buddy_free addr = do
  m ← get
  ensure (leb m.buddy_start addr || ltb addr m.buddy_end) panicked
  lock_acquire
  on_area (buddy_merge_inner (addr_to_pfn addr))
  lock_release
