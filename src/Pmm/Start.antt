-- ===== src/Pmm/Start.antt =====
-- buddy_system_init as a whole: the rounding of its bounds, the empty lists, the loop.
use pke.Base.{
  ℕ, suc, ◌+◌, ◌-◌, ◌*◌, ◌/◌, ◌%◌, ◌^◌, ◌≤◌, ◌<◌, ◌≡◌, [], arith, ◌∙◌, Returns, Returns-mono,
}
use pke.Base.Bits.{and_high}
use pke.Pmm.State.{Area, Pmm, page_size, dram_base}
use pke.Pmm.Invariant.{Lists, IsBuddy}
use pke.Pmm.Alloc.{IsSmall, on_area-Returns}
use pke.Pmm.Coverage.{addr_of, Filled, Filling, init_loop-Filling}
use pke.Pmm.Init.{round_up, round_down, empty_heads, init_loop, buddy_system_init}

-- ROUNDDOWN and ROUNDUP at the page size are what their names say.
pub round_down-page : (a : ℕ) → a < 2 ^ 64 → round_down a page_size ≡ a / page_size * page_size
unfolding round_down
round_down-page a h = and_high 12 52 a (omega arith)

pub round_up-page :
    (a : ℕ) → a + page_size ≤ 2 ^ 64 → round_up a page_size ≡ (a + 4095) / page_size * page_size
unfolding round_up
round_up-page a h =
    let e : (a + page_size - 1) % 2 ^ 64 ≡ a + 4095 = omega arith in
    rw e (and_high 12 52 (a + 4095) (omega arith))

-- No descriptor carries the marks of a free block.
abbrev pub NothingFree : Area → Type 0
NothingFree s = (p : ℕ) → (s.pages p).is_free ≡ 0

abbrev pub empty_lists : Lists
empty_lists i = []

heads-IsBuddy :
    (s : Area) → NothingFree s → IsBuddy (record s { links = empty_heads s.links }) empty_lists []
heads-IsBuddy s nothing = record {
  rings = λ i hi. ground arith;
  distinct = λ i hi. tt;
  marked = λ i p hi h. cc;
  listed = λ i p hp out mark. absurd (omega (arith, nothing p));
  fits = λ i p hi h. cc;
  apart = λ i p j q hi hj h h' ne. cc;
}

pub heads-Filled :
    (s : Area) (p : ℕ)
    → NothingFree s
    → Filled (record s { links = empty_heads s.links }) empty_lists p p
heads-Filled s p nothing = record {
  valid = heads-IsBuddy s nothing;
  below = λ j q hj h. cc;
  free = λ q. (λ (i, x, hi, h, within). cc, λ r. absurd (omega arith));
}

-- buddy_system_init on a range of at least a page within at most 2 ^ 51 pages of memory, where
-- no descriptor is marked as free: it returns with the lock free and the lists in order, the free
-- pages are exactly those that lie in the range as a whole, and nothing but the lock and the area
-- has changed.
pub buddy_system_init-Filled :
    (m : Pmm) (start_addr end_addr : ℕ)
    → NothingFree m.area
    → IsSmall m.area
    → dram_base ≤ start_addr
    → start_addr + page_size ≤ end_addr
    → end_addr ≤ m.area.nr_pages * page_size + dram_base
    → Returns
        (λ _ t.
          Filling m.area
            ((start_addr - dram_base + 4095) / page_size)
            ((end_addr - dram_base) / page_size)
            t.area
          × (t ≡ record m { area = t.area; lock = 0 }))
        (buddy_system_init start_addr end_addr m)
unfolding buddy_system_init
buddy_system_init-Filled m start_addr end_addr nothing small lo hi room =
    let a : ℕ = (start_addr - dram_base + 4095) / page_size in
    let e : ℕ = (end_addr - dram_base) / page_size in
    let ea : round_up start_addr page_size ≡ addr_of a =
      round_up-page start_addr (omega arith) ∙ omega arith in
    let ee : round_down end_addr page_size ≡ addr_of e =
      round_down-page end_addr (omega arith) ∙ omega arith in
    let s : Area = record (m.area) { links = empty_heads m.area.links } in
    rw (ea, ee)
      (Returns-mono
        (on_area-Returns (record m { area = s; lock = 0 })
          (init_loop (suc ((addr_of e - addr_of a) / page_size)) (addr_of a) (addr_of e) s)
          (init_loop-Filling (suc ((addr_of e - addr_of a) / page_size)) a e a
            (heads-Filled m.area a nothing) (omega arith) (omega arith) (omega arith) small
            (omega arith)))
        λ _ t (g, same). (record { lists = g.lists; filled = g.filled; size = g.size }, same))
