-- ===== src/Pmm/RoundTrip.antt =====
-- buddy_free, and buddy_alloc followed by buddy_free.
use pke.Base.{
  refl, ◌>>◌, ℕ, ◌+◌, ◌*◌, ◌%◌, ◌^◌, ◌≤◌, ◌<◌, ◌≡◌, ◌≢◌, ◌↔◌, inl, inr, true, [], arith, has,
  Bool-cases, ltb, leb, ap, Returns, returns, Returns-bind, Returns-mono, ◌>>=◌, ◌||◌,
}
use native.Mathlib.Nat.{one-le-pow}
use pke.Pmm.Links.{max_order}
use pke.Pmm.State.{on_area, Pmm, addr_to_pfn, page_size, dram_base}
use pke.Pmm.Invariant.{Lists, Apart, IsBuddy}
use pke.Pmm.Blocks.{Covers}
use pke.Pmm.Alloc.{IsSmall, Taken, buddy_alloc-Taken, lock_acquire-ok, on_area-Returns}
use pke.Pmm.Free.{Held, Freed, buddy_merge_inner-Freed}
use pke.Pmm.Buddy.{lock_acquire, lock_release, buddy_alloc, buddy_free, buddy_merge_inner}

pub addr_to_pfn_lem : (p : ℕ) → p < 2 ^ 51 → addr_to_pfn (p * page_size + dram_base) ≡ p
unfolding addr_to_pfn
addr_to_pfn_lem p h = omega arith

buddy_free_check :
    (m : Pmm) (addr : ℕ)
    → m.buddy_start ≤ m.buddy_end
    → (leb m.buddy_start addr || ltb addr m.buddy_end) ≡ true
buddy_free_check m addr h = ground arith

-- The range check of buddy_free lets every address pass, when the range is not reversed: the call
-- does what it would do without the check.
pub buddy_free-unchecked :
    (m : Pmm) (addr : ℕ)
    → m.buddy_start ≤ m.buddy_end
    → buddy_free addr m
      ≡ (lock_acquire >> (on_area (buddy_merge_inner (addr_to_pfn addr)) >> lock_release)) m
unfolding buddy_free
buddy_free-unchecked m addr range = rw (buddy_free_check m addr range) refl

-- buddy_free at the address of a block in use that shares no page with a free one, on a free
-- lock, a range that is not reversed and a number of pages that is a multiple of 1024, returns
-- with the lists in order and the lock free; exactly the pages of the block have become free,
-- and nothing outside the memory area changed.
pub buddy_free-Freed :
    (m : Pmm) {fl : Lists} {o : ℕ} (p : ℕ)
    → m.buddy_start ≤ m.buddy_end
    → m.lock ≡ 0
    → Held m.area fl o p
    → Returns
        (λ _ t. Freed m.area fl o p t.area × (t ≡ record m { area = t.area; lock = 0 }))
        (buddy_free (p * page_size + dram_base) m)
unfolding buddy_free
buddy_free-Freed m {o} p range free h =
    let small : p < 2 ^ 51 = omega (arith, h.fits.1, h.small, one-le-pow o 2) in
    rw
      (
        buddy_free_check m (p * page_size + dram_base) range,
        lock_acquire-ok m free,
        addr_to_pfn_lem p small,
      )
      (Returns-bind
        (on_area-Returns (record m { lock = 1 }) (buddy_merge_inner p m.area)
          (buddy_merge_inner-Freed h))
        λ _ t (freed, same). returns (freed, ap (λ (u : Pmm). record u { lock = 0 }) same))

-- What buddy_alloc hands out is a block in use.
pub Taken-Held :
    {m t : Pmm} {fl : Lists} {order addr : ℕ}
    → IsSmall m.area
    → m.area.nr_pages % 2 ^ 10 ≡ 0
    → order < max_order
    → (k : Taken m fl order addr t) → Held t.area k.lists order k.pfn
Taken-Held {m} {t} {order} small whole ho k = record {
  valid = k.valid;
  small = rw k.size small;
  whole = rw k.size whole;
  limit = omega arith;
  fits = rw k.size k.fits;
  apart = meets;
  order = k.marks.3;
}
  where
    meets : (j q : ℕ) → j < max_order → has q (k.lists j) ≡ true → Apart order k.pfn j q
    meets j q hj h = elim (Bool-cases (leb (k.pfn + 2 ^ order) q)) [
      | inl e ↦ inl (ground arith)
      | inr e ↦ elim (Bool-cases (leb (q + 2 ^ j) k.pfn)) [
        | inl e' ↦ inr (ground arith)
        | inr e' ↦ elim (Bool-cases (leb k.pfn q)) [
          | inl e'' ↦
              absurd (
                k.gone q (ground arith) (j, q, hj, h, (omega arith, omega (arith, one-le-pow j 2))))
          | inr e'' ↦ absurd (
              k.gone k.pfn (omega arith, omega (arith, one-le-pow order 2))
                (j, q, hj, h, ground arith))
        ]
      ]
    ]

-- On lists in order, a free lock, a memory of at most 2 ^ 51 pages whose number is a multiple of
-- 1024, and with a block in a list from `order` up: buddy_alloc and then buddy_free of what it
-- returns come back, with the same set of free pages, in lists that are in order, and with the
-- lock free; the block may have been split and is joined again.
pub buddy_alloc-free :
    (m : Pmm) {fl : Lists} (order j : ℕ)
    → IsBuddy m.area fl []
    → IsSmall m.area
    → m.area.nr_pages % 2 ^ 10 ≡ 0
    → m.buddy_start ≤ m.buddy_end
    → m.lock ≡ 0
    → order < max_order
    → order ≤ j
    → j < max_order
    → fl j ≢ []
    → Returns
        (λ _ t.
          (fl' : Lists) × IsBuddy t.area fl' []
          × ((q : ℕ) → Covers fl' q ↔ Covers fl q)
          × (t.lock ≡ 0))
        ((buddy_alloc order >>= buddy_free) m)
buddy_alloc-free m {fl} order j b small whole range free ho lo hj some =
    Returns-bind (buddy_alloc-Taken m b order small free ho j lo hj some) λ addr t k.
      let held = Taken-Held small whole ho k in
      let unlocked : t.lock ≡ 0 = ap (λ (u : Pmm). u.lock) k.same in
      let range' : t.buddy_start ≤ t.buddy_end = ground (arith, k.same) in
      rw k.address (
        Returns-mono (buddy_free-Freed t k.pfn range' unlocked held) λ _ u (f, same). (
          f.lists,
          f.valid,
          λ q. (λ c. (k.free q).1 ((f.free q).0 c), λ c. (f.free q).1 ((k.free q).0 c)),
          ap (λ (v : Pmm). v.lock) same,
        ))
