-- ===== src/Pmm/Init.antt =====
-- buddy_system_init and pmm_init of kernel/pmm.c.
use pke.Base.{
  ℕ, zero, suc, ◌+◌, ◌-◌, ◌*◌, ◌/◌, ◌%◌, ◌^◌, bit_and, Cmd, ok, halt, spinning, panicked, get, pure,
  modify, ◌>>=◌, ◌>>◌, ◌==◌, ltb, if◌then◌else◌, set, min, ensure, not, Run,
}
use pke.Pmm.Links.{Links, head, node, max_order, list_add}
use pke.Pmm.State.{
  Page, Area, Pmm, load_page, store_page, with_links, on_area, addr_to_pfn, page_size, dram_base,
  pcpu_cache_size, ncpu,
}
use pke.Pmm.Buddy.{buddy_alloc}

-- ROUNDUP and ROUNDDOWN of util/functions.h at a power of two, on 64-bit words.
unfoldable pub round_up : ℕ → ℕ → ℕ
round_up a b = bit_and ((a + b - 1) % 2 ^ 64) (2 ^ 64 - b)

unfoldable pub round_down : ℕ → ℕ → ℕ
round_down a b = bit_and a (2 ^ 64 - b)

-- __builtin_ctzll, the number of zeros at the low end of a 64-bit word that is not 0.
unfoldable pub trailing_zeros : ℕ → ℕ → ℕ
trailing_zeros zero n = 0
trailing_zeros (suc bits) n = if n % 2 == 0 then suc (trailing_zeros bits (n / 2)) else 0

-- 63 - __builtin_clzll, the position of the highest one of a 64-bit word that is not 0.
unfoldable pub highest_bit : ℕ → ℕ → ℕ
highest_bit zero n = 0
highest_bit (suc bits) n = if n / 2 == 0 then 0 else suc (highest_bit bits (n / 2))

-- The order of the block that starts at `curr_addr`.
unfoldable pub block_order : ℕ → ℕ → ℕ
block_order curr_addr stop_addr =
    let align_order : ℕ = trailing_zeros 64 (curr_addr / page_size) in
    let remaining_pages : ℕ = (stop_addr - curr_addr) / page_size in
    let limit_order : ℕ = highest_bit 64 remaining_pages in
    let order : ℕ = if ltb align_order limit_order then align_order else limit_order in
    if ltb order max_order then order else max_order - 1

-- The body of the loop: one block is marked and put into its list.
unfoldable pub add_block : ℕ → ℕ → Cmd Area (Unit {0})
add_block pfn order = do
  p ← load_page pfn
  store_page pfn (record p { alloc = 0; is_head = 1; is_free = 1; order = order % 32 })
  with_links (λ l. list_add l (head order) (node pfn) (node pfn))

-- `while (curr_addr < stop_addr)`, with fuel; a loop that outlives it does not come back.
unfoldable pub init_loop : ℕ → ℕ → ℕ → Cmd Area (Unit {0})
init_loop zero curr_addr stop_addr s = halt spinning
init_loop (suc fuel) curr_addr stop_addr s =
    let order : ℕ = block_order curr_addr stop_addr in
    let next : Run Area (Unit {0}) =
      (add_block (addr_to_pfn curr_addr) order
          >> init_loop fuel ((curr_addr + 2 ^ order * page_size) % 2 ^ 64) stop_addr)
        s in
    if ltb curr_addr stop_addr then next else ok tt s

-- Each list head points at itself.
abbrev pub empty_heads : Links → Links
empty_heads l = record {
  prev = λ n. if ltb n max_order then n else l.prev n;
  next = λ n. if ltb n max_order then n else l.next n;
}

unfoldable pub buddy_system_init : ℕ → ℕ → Cmd Pmm (Unit {0})
buddy_system_init start_addr end_addr = do
  on_area (with_links empty_heads)
  modify (λ m. record m { lock = 0 })
  let curr_addr = round_up start_addr page_size
  let stop_addr = round_down end_addr page_size
  on_area (init_loop (suc ((stop_addr - curr_addr) / page_size)) curr_addr stop_addr)

-- All descriptors are 0 but for their owner, the kernel.
abbrev pub kernel_page : Page
kernel_page = record {
  is_free = 0;
  is_head = 0;
  order = 0;
  alloc = 3;
  cpu_id = 0;
  ref = 0;
  color = 0;
}

-- The caches of all harts are filled to the brim.
unfoldable pub fill_cache : ℕ → ℕ → ℕ → Cmd Pmm (Unit {0})
fill_cache zero cpu j = pure tt
fill_cache (suc rounds) cpu j = do
  addr ← buddy_alloc 0
  modify (λ m. record m {
    pcpu_caches = λ i.
        if i == cpu
        then record (m.pcpu_caches i) { objs = set (m.pcpu_caches i).objs j (addr_to_pfn addr) }
        else m.pcpu_caches i;
  })
  fill_cache rounds cpu (j + 1)

unfoldable pub fill_caches : ℕ → ℕ → Cmd Pmm (Unit {0})
fill_caches zero cpu = pure tt
fill_caches (suc rounds) cpu = do
  fill_cache pcpu_cache_size cpu 0
  modify (λ m. record m {
    pcpu_caches = λ i.
        if i == cpu then record (m.pcpu_caches i) { count = pcpu_cache_size } else m.pcpu_caches i;
  })
  fill_caches rounds (cpu + 1)

abbrev pub pke_max_allowable_ram : ℕ
pke_max_allowable_ram = 128 * 1024 * 1024

-- `kernel_end` is the address of `_end`, which the linker chooses; a page descriptor takes 24
-- bytes.
unfoldable pub pmm_init : ℕ → Cmd Pmm (Unit {0})
pmm_init kernel_end = do
  let pke_kernel_size = (kernel_end + 2 ^ 64 - dram_base) % 2 ^ 64
  m ← get
  let mem_size = min pke_max_allowable_ram m.g_mem_size
  modify
      (λ m. record m { free_mem_start_addr = round_up kernel_end page_size; g_mem_size = mem_size })
  ensure (not (ltb mem_size pke_kernel_size)) panicked
  let free_mem_end = mem_size + dram_base
  let pages_addr = round_up kernel_end 8
  let nr = mem_size / page_size
  let start = round_up (nr * 24 + pages_addr) page_size
  let stop_addr = round_down free_mem_end page_size
  modify (λ m. record m {
    free_mem_end_addr = free_mem_end;
    buddy_start = start;
    buddy_end = stop_addr;
    area = record (m.area) { pages = λ _. kernel_page; nr_pages = nr };
  })
  buddy_system_init start stop_addr
  fill_caches ncpu 0
