-- ===== src/Trap/Cow.antt =====
-- The entries that do_fork and the page fault handler write: copy on write.
use pke.Base.{
  ℕ, ◌+◌, ◌-◌, ◌*◌, ◌/◌, ◌%◌, ◌^◌, ◌<◌, ◌≡◌, refl, ap, ◌∙◌, true, false, bit_and, bit_or, ◌==◌,
  arith,
}
use pke.Base.Bits.{
  and_fields, or_fields, and_mask, and_step, or_step, or_zero, and_high, or_disjoint,
}
use pke.Pmm.State.{page_size}
use pke.Vmm.Pte.{pte_w, pte_cow, has_flag, pa_to_pte, pte_to_pa}
use pke.Process.Fork.{cow_entry}
use pke.Trap.Handler.{unshared_entry, owned_entry}

-- Setting and clearing a bit, by division.
abbrev pub with_bit : ℕ → ℕ → ℕ
with_bit k w = (w / 2 ^ k / 2 * 2 + 1) * 2 ^ k + w % 2 ^ k

abbrev pub without_bit : ℕ → ℕ → ℕ
without_bit k w = w / 2 ^ k / 2 * 2 * 2 ^ k + w % 2 ^ k

or_one : (q : ℕ) → bit_or q 1 ≡ q / 2 * 2 + 1
or_one q = omega (arith, or_step q 1, or_zero (q / 2) (q / 2) (omega arith))

or_w : (w : ℕ) → bit_or w pte_w ≡ with_bit 2 w
or_w w =
    let e : w ≡ w / 4 * 4 + w % 4 = omega arith in
    ap (λ (t : ℕ). bit_or t 4) e
    ∙ or_fields 2 (w / 4) 1 (w % 4) 0 (omega arith) (omega arith)
    ∙ omega (arith, or_one (w / 4), or_zero (w % 4) (w % 4) (omega arith))

or_cow : (w : ℕ) → bit_or w pte_cow ≡ with_bit 8 w
or_cow w =
    let e : w ≡ w / 256 * 256 + w % 256 = omega arith in
    ap (λ (t : ℕ). bit_or t 256) e
    ∙ or_fields 8 (w / 256) 1 (w % 256) 0 (omega arith) (omega arith)
    ∙ omega (arith, or_one (w / 256), or_zero (w % 256) (w % 256) (omega arith))

and_not_w : (w : ℕ) → w < 2 ^ 64 → bit_and w (2 ^ 64 - 1 - pte_w) ≡ without_bit 2 w
and_not_w w h =
    let e : w ≡ w / 4 * 4 + w % 4 = omega arith in
    ap (λ (t : ℕ). bit_and t (2 ^ 64 - 1 - 4)) e
    ∙ and_fields 2 (w / 4) (2 ^ 62 - 2) (w % 4) 3 (omega arith) (omega arith)
    ∙ omega (arith, and_high 1 61 (w / 4) (omega arith), and_mask 2 (w % 4))

and_not_cow : (w : ℕ) → w < 2 ^ 64 → bit_and w (2 ^ 64 - 1 - pte_cow) ≡ without_bit 8 w
and_not_cow w h =
    let e : w ≡ w / 256 * 256 + w % 256 = omega arith in
    ap (λ (t : ℕ). bit_and t (2 ^ 64 - 1 - 256)) e
    ∙ and_fields 8 (w / 256) (2 ^ 56 - 2) (w % 256) 255 (omega arith) (omega arith)
    ∙ omega (arith, and_high 1 55 (w / 256) (omega arith), and_mask 8 (w % 256))

-- The flags as bits.
and_four : (w : ℕ) → bit_and w pte_w ≡ w / 4 % 2 * 4
and_four w = omega (arith, and_step w 4, and_step (w / 2) 2, and_mask 1 (w / 2 / 2))

pub has_flag-w : (w : ℕ) → has_flag w pte_w ≡ (w / 4 % 2 == 1)
unfolding has_flag
has_flag-w w = ground (arith, and_four w)

-- do_fork takes the write permission from an entry that has it and is not marked: the entry
-- keeps its address, is not writable and is marked PTE_COW; and what the fault handler makes of
-- that entry for the last reader is the old entry.
pub unshared-cow_entry :
    (w : ℕ)
    → w < 2 ^ 64
    → has_flag w pte_w ≡ true
    → w / 2 ^ 8 % 2 ≡ 0
    → (unshared_entry (cow_entry w) ≡ w)
      × (pte_to_pa (cow_entry w) ≡ pte_to_pa w)
      × (has_flag (cow_entry w) pte_w ≡ false)
      × (cow_entry w / 2 ^ 8 % 2 ≡ 1)
unfolding cow_entry unshared_entry pte_to_pa
unshared-cow_entry w h writable unmarked =
    let bit : w / 4 % 2 ≡ 1 = (let e = has_flag-w w in ground arith) in
    let c : ℕ = with_bit 8 (without_bit 2 w) in
    let ec : bit_or (bit_and w (2 ^ 64 - 1 - pte_w)) pte_cow ≡ c =
      ap (λ (t : ℕ). bit_or t pte_cow) (and_not_w w h) ∙ or_cow (without_bit 2 w) in
    let eu : bit_and (bit_or c pte_w) (2 ^ 64 - 1 - pte_cow) ≡ without_bit 8 (with_bit 2 c) =
      ap (λ (t : ℕ). bit_and t (2 ^ 64 - 1 - pte_cow)) (or_w c)
      ∙ and_not_cow (with_bit 2 c) (omega arith) in
    rw (writable, ec, eu)
      (
        omega arith,
        omega arith,
        (let z : bit_and c pte_w ≡ 0 = omega (arith, and_four c) in rw z refl),
        omega arith,
      )

-- The entry that do_fork leaves is valid and readable when the old one was.
pub cow_entry-kept :
    (w : ℕ)
    → w < 2 ^ 64
    → has_flag w pte_w ≡ true
    → (cow_entry w % 2 ≡ w % 2) × (cow_entry w / 2 % 2 ≡ w / 2 % 2)
unfolding cow_entry
cow_entry-kept w h writable =
    let ec : bit_or (bit_and w (2 ^ 64 - 1 - pte_w)) pte_cow ≡ with_bit 8 (without_bit 2 w) =
      ap (λ (t : ℕ). bit_or t pte_cow) (and_not_w w h) ∙ or_cow (without_bit 2 w) in
    rw (writable, ec) (omega arith, omega arith)

-- The entry of the writer's own copy: the new page, writable and unmarked, with the other flags as
-- before.
pub owned_entry_lem :
    (new_pa w : ℕ)
    → new_pa % page_size ≡ 0
    → new_pa < 2 ^ 56
    → (pte_to_pa (owned_entry new_pa w) ≡ new_pa)
      × (has_flag (owned_entry new_pa w) pte_w ≡ true)
      × (owned_entry new_pa w / 2 ^ 8 % 2 ≡ 0)
      × (owned_entry new_pa w % 2 ≡ w % 2)
      × (owned_entry new_pa w / 2 % 2 ≡ w / 2 % 2)
unfolding owned_entry pte_to_pa pa_to_pte
owned_entry_lem new_pa w aligned small =
    let q : ℕ = new_pa / 2 ^ 12 in
    let f : ℕ = without_bit 8 (w % 2 ^ 10) in
    let c : ℕ = with_bit 2 (q * 2 ^ 10 + f) in
    let e₁ : new_pa / 2 ^ 12 * 2 ^ 10 % 2 ^ 64 ≡ q * 2 ^ 10 = omega arith in
    let e₂ : bit_and w 0x3ff ≡ w % 2 ^ 10 = and_mask 10 w in
    let e₃ : bit_and (w % 2 ^ 10) (2 ^ 64 - 1 - pte_cow) ≡ f =
      and_not_cow (w % 2 ^ 10) (omega arith) in
    let e₄ : bit_or (q * 2 ^ 10) f ≡ q * 2 ^ 10 + f = or_disjoint 10 q f (omega arith) in
    let e₅ : bit_or (q * 2 ^ 10 + f) pte_w ≡ c = or_w (q * 2 ^ 10 + f) in
    let flag : has_flag c pte_w ≡ true = has_flag-w c ∙ ground arith in
    rw (e₁, e₂, e₃, e₄, e₅)
      (omega (arith, aligned, small), flag, omega arith, omega arith, omega arith)

-- The entry for the last reader: writable and unmarked, with all other bits as before.
pub unshared_entry_lem :
    (w : ℕ)
    → w < 2 ^ 64
    → (unshared_entry w ≡ without_bit 8 (with_bit 2 w))
      × (pte_to_pa (unshared_entry w) ≡ pte_to_pa w)
      × (has_flag (unshared_entry w) pte_w ≡ true)
      × (unshared_entry w / 2 ^ 8 % 2 ≡ 0)
      × (unshared_entry w % 2 ≡ w % 2)
      × (unshared_entry w / 2 % 2 ≡ w / 2 % 2)
unfolding unshared_entry pte_to_pa
unshared_entry_lem w h =
    let c : ℕ = without_bit 8 (with_bit 2 w) in
    let e : bit_and (bit_or w pte_w) (2 ^ 64 - 1 - pte_cow) ≡ c =
      ap (λ (t : ℕ). bit_and t (2 ^ 64 - 1 - pte_cow)) (or_w w)
      ∙ and_not_cow (with_bit 2 w) (omega arith) in
    let flag : has_flag c pte_w ≡ true = has_flag-w c ∙ ground arith in
    rw e (refl, omega arith, flag, omega arith, omega arith, omega arith)
