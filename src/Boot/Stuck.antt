-- ===== src/Boot/Stuck.antt =====
-- The start of the kernel does not get past the kernel's page table.
use pke.Base.{
  ℕ, ◌+◌, ◌*◌, ◌<◌, ◌≤◌, ◌≡◌, refl, ◌∙◌, inl, length, arith, Cmd, ok, Returns-eq_ok, NoReturn, ◌>>◌,
  modify,
}
use native.Mathlib.Nat.{min-le_left}
use pke.Pmm.State.{Pmm, page_size, dram_base, pcpu_cache_size}
use pke.Pmm.Init.{pmm_init, pke_max_allowable_ram}
use pke.Pmm.Supply.{managed_pages, descriptors_end, pmm_init-Stocked}
use pke.Pmm.Budget.{all_given}
use pke.Kernel.{Kernel, on_pmm, on_pmm_result}
use pke.Vmm.KernelMap.{kern_vm_init}
use pke.Vmm.Exhausted.{kern_vm_init-NoReturn}
use pke.Vmm.Supply.{Cached}

on_pmm-runs :
    {A : Type 0} (c : Cmd Pmm A) (k : Kernel) (a : A) (m : Pmm)
    → c k.pmm ≡ ok a m
    → on_pmm c k ≡ ok a (record k { pmm = m })
unfolding on_pmm on_pmm_result
on_pmm-runs c k a m run = rw run refl

-- s_start up to the kernel's page table.
abbrev pub start_memory : ℕ → ℕ → Cmd Kernel (Unit {0})
start_memory kernel_end etext =
    modify (λ k. record k { satp = 0 }) >> (on_pmm (pmm_init kernel_end) >> kern_vm_init etext)

-- The first steps of s_start on hart 0, up to kern_vm_init, under the conditions of pmm_init-
-- Stocked and with a text that ends behind the start of memory and not behind the kernel: they
-- never come back, since the kernel's page table takes more pages than the cache has.
pub start_memory-NoReturn :
    (k : Kernel) (kernel_end etext : ℕ)
    → k.pmm.tp ≡ 0
    → dram_base < etext
    → etext ≤ kernel_end
    → descriptors_end kernel_end k.pmm + 8 + 33 * page_size
      ≤ managed_pages k.pmm * page_size + dram_base
    → length (k.pmm.pcpu_caches 0).objs ≡ pcpu_cache_size
    → NoReturn (start_memory kernel_end etext k)
start_memory-NoReturn k kernel_end etext hart lo le room size =
    let k0 : Kernel = record k { satp = 0 } in
    let (a, m, run, (from, above, near, stocked, tp, count)) =
      Returns-eq_ok (pmm_init-Stocked k.pmm kernel_end (omega (arith, lo, le)) room size) in
    let (given, full, s) = stocked in
    let bound = min-le_left pke_max_allowable_ram k.pmm.g_mem_size in
    let cached : Cached given 32 (record k0 { pmm = m }) = record {
      hart = tp ∙ hart;
      count = count;
      objs = s.objs ∙ all_given given s.rest full s.full;
    } in
    rw (on_pmm-runs (pmm_init kernel_end) k0 a m run) (
      kern_vm_init-NoReturn given full s.distinct
        (λ q h. (let w = (s.pages q).0 (inl h) in omega (arith, w.1, bound))) etext
        (record k0 { pmm = m }) cached lo (omega (arith, le, room, bound)))
