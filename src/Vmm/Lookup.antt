-- ===== src/Vmm/Lookup.antt =====
-- Mapping a page and looking it up again: map_pages, lookup_pa, user_va_to_pa, user_vm_unmap.
use pke.Base.{
  ℕ, suc, ◌+◌, ◌-◌, ◌*◌, ◌/◌, ◌%◌, ◌^◌, ◌<◌, ◌≡◌, ◌≢◌, refl, sym, ap, ◌∙◌, Bool, true, false,
  bit_and, bit_or, leb, arith, ok, Returns, returns, ne→==_false,
}
use pke.Base.Bits.{and_step, or_step, and_mask, or_disjoint, or_fields, or_zero}
use pke.Pmm.State.{page_size}
use pke.Pmm.Init.{round_down}
use pke.Pmm.Start.{round_down-page}
use pke.Kernel.{Kernel, load, store, write_mem}
use pke.Vmm.Pte.{pte_v, pte_r, has_flag, pa_to_pte, pte_to_pa, max_va}
use pke.Vmm.Walk.{entry, page_walk, Walks, page_walk-Walks}
use pke.Vmm.Maps.{map_page, map_loop, map_pages, lookup_pa, looked_up, user_va_to_pa}

pub has_flag-v : (w : ℕ) → w % 2 ≡ 1 → has_flag w pte_v ≡ true
unfolding has_flag
has_flag-v w h = let e : bit_and w 1 ≡ 1 = and_mask 1 w ∙ h in rw e refl

pub has_flag-v_bit : (w : ℕ) → has_flag w pte_v ≡ true → w % 2 ≡ 1
unfolding has_flag
has_flag-v_bit w h = ground (arith, and_mask 1 w)

and_two : (w : ℕ) → bit_and w 2 ≡ w / 2 % 2 * 2
and_two w = omega (arith, and_step w 2, and_mask 1 (w / 2))

pub has_flag-r : (w : ℕ) → w / 2 % 2 ≡ 1 → has_flag w pte_r ≡ true
unfolding has_flag
has_flag-r w h = let e : bit_and w 2 ≡ 2 = omega (arith, and_two w, h) in rw e refl

pub has_flag-r_bit : (w : ℕ) → has_flag w pte_r ≡ true → w / 2 % 2 ≡ 1
unfolding has_flag
has_flag-r_bit w h = ground (arith, and_two w)

-- The entry that map_pages writes.
abbrev pub leaf_word : ℕ → ℕ → ℕ
leaf_word pa perm = bit_or (bit_or (pa_to_pte pa) perm) pte_v

leaf_word_lem :
    (pa perm : ℕ)
    → pa % page_size ≡ 0
    → pa < 2 ^ 56
    → perm < 2 ^ 10
    → leaf_word pa perm ≡ pa / 2 ^ 12 * 2 ^ 10 + (perm / 2 * 2 + 1)
unfolding pa_to_pte
leaf_word_lem pa perm aligned small hp =
    let q : ℕ = pa / 2 ^ 12 in
    let e : pa / 2 ^ 12 * 2 ^ 10 % 2 ^ 64 ≡ q * 2 ^ 10 = omega arith in
    let o : bit_or (q * 2 ^ 10) perm ≡ q * 2 ^ 10 + perm = or_disjoint 10 q perm hp in
    let f : bit_or (q * 2 ^ 10 + perm) 1 ≡ bit_or q 0 * 2 ^ 10 + bit_or perm 1 =
      or_fields 10 q 0 perm 1 hp (omega arith) in
    let z : bit_or q 0 ≡ q = or_zero q q (omega arith) in
    let s : bit_or perm 1 ≡ perm / 2 * 2 + 1 =
      omega (arith, or_step perm 1, or_zero (perm / 2) (perm / 2) (omega arith)) in
    rw (e, o, f, z, s) refl

-- The page at `va` has its three levels of tables, whose last entry `leaf` belongs to no other
-- level.
pub record Reaches (k : Kernel) (page_dir va leaf : ℕ) : Type 0 where
  pub leaves : ℕ
  pub walks : Walks k.mem page_dir va leaves
  pub here : entry leaves 0 va ≡ leaf
  pub not_null : leaf ≢ 0
  pub not_top : entry page_dir 2 va ≢ leaf
  pub not_medium : entry (walks.medium) 1 va ≢ leaf
  pub positive : 0 < va
  pub below : va < max_va

-- A write to `a` is not on the way to the entry of `va`.
pub record Off {k : Kernel} {page_dir va leaf : ℕ} (r : Reaches k page_dir va leaf) (a : ℕ)
    : Type 0 where
  pub not_top : entry page_dir 2 va ≢ a
  pub not_medium : entry r.walks.medium 1 va ≢ a

-- A state that agrees on the two entries above the leaf entry has the same way to it.
pub Reaches-agree :
    {k t : Kernel} {page_dir va leaf : ℕ} (r : Reaches k page_dir va leaf)
    → t.mem (entry page_dir 2 va) ≡ k.mem (entry page_dir 2 va)
    → t.mem (entry r.walks.medium 1 va) ≡ k.mem (entry r.walks.medium 1 va)
    → Reaches t page_dir va leaf
Reaches-agree r top medium = record {
  leaves = r.leaves;
  walks = record {
    medium = r.walks.medium;
    top_valid = ap (λ (w : ℕ). has_flag w pte_v) top ∙ r.walks.top_valid;
    top = ap pte_to_pa top ∙ r.walks.top;
    medium_valid = ap (λ (w : ℕ). has_flag w pte_v) medium ∙ r.walks.medium_valid;
    low = ap pte_to_pa medium ∙ r.walks.low;
  };
  here = r.here;
  not_null = r.not_null;
  not_top = r.not_top;
  not_medium = r.not_medium;
  positive = r.positive;
  below = r.below;
}

pub Off-agree :
    {k t : Kernel} {page_dir va leaf a : ℕ} (r : Reaches k page_dir va leaf)
    → (top : t.mem (entry page_dir 2 va) ≡ k.mem (entry page_dir 2 va))
    → (medium : t.mem (entry r.walks.medium 1 va) ≡ k.mem (entry r.walks.medium 1 va)) → Off r a
    → Off (Reaches-agree {t = t} r top medium) a
unfolding Reaches-agree
Off-agree r top medium off = record { not_top = off.not_top; not_medium = off.not_medium }

pub Reaches-write :
    {k : Kernel} {page_dir va leaf : ℕ} (v : ℕ)
    → Reaches k page_dir va leaf
    → Reaches (write_mem leaf v k) page_dir va leaf
Reaches-write v r =
    Reaches-agree r (rw (ne→==_false _ _ r.not_top) refl) (rw (ne→==_false _ _ r.not_medium) refl)

pub page_walk-leaf :
    {k : Kernel} {page_dir va leaf : ℕ} (alloc : Bool)
    → Reaches k page_dir va leaf
    → page_walk page_dir va 0 alloc k ≡ ok leaf k
page_walk-leaf {k} {page_dir} {va} alloc r =
    page_walk-Walks k page_dir va r.leaves alloc r.walks r.positive r.below
    ∙ ap (λ (a : ℕ). ok a k) r.here

-- A page and flags that an entry can hold, and that lookup_pa takes for mapped.
pub record Mappable (pa perm : ℕ) : Type 0 where
  pub aligned : pa % page_size ≡ 0
  pub small : pa < 2 ^ 56
  pub flags : perm < 2 ^ 10
  pub readable : has_flag perm pte_r ≡ true

module _ (pa perm : ℕ) (p : Mappable pa perm) where
  leaf_word-v : has_flag (leaf_word pa perm) pte_v ≡ true
  leaf_word-v =
      has_flag-v (leaf_word pa perm)
        (omega (arith, leaf_word_lem pa perm p.aligned p.small p.flags))

  leaf_word-r : has_flag (leaf_word pa perm) pte_r ≡ true
  leaf_word-r = has_flag-r (leaf_word pa perm) (
      omega
        (arith, leaf_word_lem pa perm p.aligned p.small p.flags, has_flag-r_bit perm p.readable))

  leaf_word-pa : pte_to_pa (leaf_word pa perm) ≡ pa
  unfolding pte_to_pa
  leaf_word-pa =
      rw (leaf_word_lem pa perm p.aligned p.small p.flags)
        (omega (arith, p.aligned, p.small, p.flags))

-- lookup_pa on a valid and readable entry.
pub lookup_pa-valid :
    {k : Kernel} {page_dir va leaf : ℕ}
    → Reaches k page_dir va leaf
    → has_flag (k.mem leaf) pte_v ≡ true
    → has_flag (k.mem leaf) pte_r ≡ true
    → lookup_pa page_dir va k ≡ ok (pte_to_pa (k.mem leaf)) k
unfolding lookup_pa looked_up load
lookup_pa-valid {va = va} {leaf = leaf} r valid readable =
    let low : leb max_va va ≡ false = (let b = r.below in ground arith) in
    rw (low, page_walk-leaf false r, ne→==_false leaf 0 r.not_null, valid, readable) refl

-- lookup_pa and user_va_to_pa on an entry that map_pages wrote.
module _ (k : Kernel) (page_dir va leaf pa perm : ℕ) (p : Mappable pa perm)
    (written : k.mem leaf ≡ leaf_word pa perm) where
  pub lookup_pa-leaf : Reaches k page_dir va leaf → lookup_pa page_dir va k ≡ ok pa k
  lookup_pa-leaf r =
      lookup_pa-valid r (ap (λ (w : ℕ). has_flag w pte_v) written ∙ leaf_word-v pa perm p)
        (ap (λ (w : ℕ). has_flag w pte_r) written ∙ leaf_word-r pa perm p)
      ∙ ap (λ (a : ℕ). ok a k) (ap pte_to_pa written ∙ leaf_word-pa pa perm p)

  -- Where the leaf entry is the one that map_pages writes for a page, user_va_to_pa returns the
  -- address of the page plus the offset in it, and changes nothing.
  pub user_va_to_pa-leaf :
      Reaches k page_dir va leaf → user_va_to_pa page_dir va k ≡ ok (pa + va % page_size) k
  unfolding user_va_to_pa load
  user_va_to_pa-leaf r =
      let off : bit_and va (page_size - 1) ≡ va % page_size = and_mask 12 va in
      let q : pa ≡ pa / 2 ^ 12 * 2 ^ 12 = omega (arith, p.aligned) in
      let o : bit_or (pa / 2 ^ 12 * 2 ^ 12) (va % page_size)
          ≡ pa / 2 ^ 12 * 2 ^ 12 + va % page_size =
        or_disjoint 12 (pa / 2 ^ 12) (va % page_size) (omega arith) in
      let o' : bit_or pa (va % page_size) ≡ pa + va % page_size =
        ap (λ (a : ℕ). bit_or a (va % page_size)) q
        ∙ o
        ∙ ap (λ (a : ℕ). a + va % page_size) (sym q) in
      rw
        (
          page_walk-leaf false r,
          ne→==_false leaf 0 r.not_null,
          written,
          leaf_word-v pa perm p,
          leaf_word-pa pa perm p,
          off,
          o',
        )
        refl

map_page-leaf :
    (k : Kernel) (page_dir va leaf pa perm : ℕ)
    → Reaches k page_dir va leaf
    → has_flag (k.mem leaf) pte_v ≡ false
    → map_page page_dir va pa perm k ≡ ok true (write_mem leaf (leaf_word pa perm) k)
unfolding map_page load store
map_page-leaf k page_dir va leaf pa perm r empty =
    rw (page_walk-leaf true r, ne→==_false leaf 0 r.not_null, empty) refl

pub map_loop-step :
    (fuel page_dir first stop_at pa perm : ℕ) (k t : Kernel)
    → leb first stop_at ≡ true
    → map_page page_dir first pa perm k ≡ ok true t
    → map_loop (suc fuel) page_dir first stop_at pa perm k
      ≡ map_loop fuel page_dir
          ((first + page_size) % 2 ^ 64)
          stop_at
          ((pa + page_size) % 2 ^ 64)
          perm
          t
unfolding map_loop
map_loop-step fuel page_dir first stop_at pa perm k t more run = rw (map_loop, more, run) refl

pub map_loop-stop :
    (fuel page_dir first stop_at pa perm : ℕ) (k : Kernel)
    → leb first stop_at ≡ false
    → map_loop (suc fuel) page_dir first stop_at pa perm k ≡ ok true k
unfolding map_loop
map_loop-stop fuel page_dir first stop_at pa perm k done = rw (map_loop, done) refl

map_loop-leaf :
    (k : Kernel) (page_dir va leaf pa perm fuel : ℕ)
    → Reaches k page_dir va leaf
    → has_flag (k.mem leaf) pte_v ≡ false
    → map_loop (suc (suc fuel)) page_dir va va pa perm k
      ≡ ok true (write_mem leaf (leaf_word pa perm) k)
map_loop-leaf k page_dir va leaf pa perm fuel r empty =
    let t : Kernel = write_mem leaf (leaf_word pa perm) k in
    map_loop-step (suc fuel) page_dir va va pa perm k t (ground arith)
      (map_page-leaf k page_dir va leaf pa perm r empty)
    ∙ map_loop-stop fuel page_dir ((va + page_size) % 2 ^ 64) va ((pa + page_size) % 2 ^ 64) perm t
        (let b = r.below in ground arith)

-- map_pages on one page writes its leaf entry.
pub map_pages-leaf :
    (k : Kernel) (page_dir va leaf pa perm : ℕ)
    → Reaches k page_dir va leaf
    → va % page_size ≡ 0
    → has_flag (k.mem leaf) pte_v ≡ false
    → map_pages page_dir va page_size pa perm k ≡ ok true (write_mem leaf (leaf_word pa perm) k)
unfolding map_pages
map_pages-leaf k page_dir va leaf pa perm r aligned empty =
    let first : round_down va page_size ≡ va =
      round_down-page va (omega (arith, r.below)) ∙ omega arith in
    let stop_at : round_down ((va + page_size + 2 ^ 64 - 1) % 2 ^ 64) page_size ≡ va =
      round_down-page _ (omega arith) ∙ omega (arith, r.below) in
    rw (first, stop_at) (map_loop-leaf k page_dir va leaf pa perm ((va - va) / page_size) r empty)

-- map_pages on one page whose tables are there, whose leaf entry belongs to no other level and
-- is not valid, for a page below 2 ^ 56 and readable flags, returns 0 and writes that entry and
-- nothing else; lookup_pa then finds the page.
pub map_pages-lookup_pa :
    (k : Kernel) (page_dir va leaf pa perm : ℕ)
    → Reaches k page_dir va leaf
    → va % page_size ≡ 0
    → has_flag (k.mem leaf) pte_v ≡ false
    → Mappable pa perm
    → Returns
        (λ fine t.
          (fine ≡ true)
          × Reaches t page_dir va leaf
          × (lookup_pa page_dir va t ≡ ok pa t)
          × ((a : ℕ) → a ≢ leaf → t.mem a ≡ k.mem a))
        (map_pages page_dir va page_size pa perm k)
map_pages-lookup_pa k page_dir va leaf pa perm r aligned empty p =
    let t : Kernel = write_mem leaf (leaf_word pa perm) k in
    let r' : Reaches t page_dir va leaf = Reaches-write (leaf_word pa perm) r in
    rw (map_pages-leaf k page_dir va leaf pa perm r aligned empty) (
      returns (
        refl,
        r',
        lookup_pa-leaf t page_dir va leaf pa perm p (ground arith) r',
        λ a ne. ground arith,
      ))
