-- ===== src/Vmm/Pte.antt =====
-- Page table entries: the macros of kernel/riscv.h and prot_to_type of kernel/vmm.c.
use pke.Base.{
  ℕ, ◌+◌, ◌*◌, ◌/◌, ◌%◌, ◌^◌, ◌<◌, ◌≡◌, refl, ◌∙◌, Bool, bit_and, bit_or, ◌==◌, not, if◌then◌else◌,
  arith,
}
use pke.Base.Bits.{and_mask, or_disjoint}
use pke.Pmm.State.{page_size}

abbrev pub pte_v : ℕ
pte_v = 2 ^ 0

abbrev pub pte_r : ℕ
pte_r = 2 ^ 1

abbrev pub pte_w : ℕ
pte_w = 2 ^ 2

abbrev pub pte_x : ℕ
pte_x = 2 ^ 3

abbrev pub pte_u : ℕ
pte_u = 2 ^ 4

abbrev pub pte_a : ℕ
pte_a = 2 ^ 6

abbrev pub pte_d : ℕ
pte_d = 2 ^ 7

abbrev pub pte_cow : ℕ
pte_cow = 2 ^ 8

-- Whether an entry has a flag: `pte & f` as a condition.
unfoldable pub has_flag : ℕ → ℕ → Bool
has_flag pte f = not (bit_and pte f == 0)

-- PA2PTE and PTE2PA on 64-bit words.
unfoldable pub pa_to_pte : ℕ → ℕ
pa_to_pte pa = pa / 2 ^ 12 * 2 ^ 10 % 2 ^ 64

unfoldable pub pte_to_pa : ℕ → ℕ
pte_to_pa pte = pte / 2 ^ 10 * 2 ^ 12 % 2 ^ 64

-- PX: the index of `va` in a table of `level`.
unfoldable pub px : ℕ → ℕ → ℕ
px level va = bit_and (va / 2 ^ (12 + 9 * level)) 511

abbrev pub max_va : ℕ
max_va = 2 ^ 38

-- PROT_READ, PROT_WRITE and PROT_EXEC.
abbrev pub prot_read : ℕ
prot_read = 1

abbrev pub prot_write : ℕ
prot_write = 2

abbrev pub prot_exec : ℕ
prot_exec = 4

-- The flags that a set of permissions asks for.
unfoldable pub prot_to_type : ℕ → Bool → ℕ
unfolding has_flag
prot_to_type prot user =
    let perm₁ : ℕ = if has_flag prot prot_read then bit_or 0 (bit_or pte_r pte_a) else 0 in
    let perm₂ : ℕ = if has_flag prot prot_write then bit_or perm₁ (bit_or pte_w pte_d) else perm₁ in
    let perm₃ : ℕ = if has_flag prot prot_exec then bit_or perm₂ (bit_or pte_x pte_a) else perm₂ in
    let perm₄ : ℕ = if perm₃ == 0 then pte_r else perm₃ in
    if user then bit_or perm₄ pte_u else perm₄

-- An entry made from the address of a page below 2 ^ 56 and ten flags gives back the page and
-- the flags.
pub pa_to_pte-round_trip :
    (pa flags : ℕ)
    → pa % page_size ≡ 0
    → pa < 2 ^ 56
    → flags < 2 ^ 10
    → (pte_to_pa (bit_or (pa_to_pte pa) flags) ≡ pa)
      × (bit_and (bit_or (pa_to_pte pa) flags) 1023 ≡ flags)
unfolding pte_to_pa pa_to_pte
pa_to_pte-round_trip pa flags aligned small hf =
    let q : ℕ = pa / 2 ^ 12 in
    let e : pa / 2 ^ 12 * 2 ^ 10 % 2 ^ 64 ≡ q * 2 ^ 10 = omega arith in
    let o : bit_or (q * 2 ^ 10) flags ≡ q * 2 ^ 10 + flags = or_disjoint 10 q flags hf in
    let m : bit_and (q * 2 ^ 10 + flags) 1023 ≡ flags =
      and_mask 10 (q * 2 ^ 10 + flags) ∙ omega arith in
    rw (e, o, m) (omega arith, refl)
