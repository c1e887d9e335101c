-- ===== src/Vmm/Unmap.antt =====
-- user_vm_unmap of kernel/vmm.c on a page that is mapped.
use pke.Base.{
  ℕ, suc, ◌+◌, ◌%◌, ◌^◌, ◌≡◌, ◌≢◌, refl, ◌∙◌, true, false, ltb, leb, arith, ok, ne→==_false,
  Returns, returns,
}
use pke.Pmm.State.{Pmm, page_size}
use pke.Pmm.Init.{round_down}
use pke.Pmm.Start.{round_down-page}
use pke.Pmm.Cache.{pfree}
use pke.Kernel.{Kernel, load, store, write_mem, on_pmm, on_pmm_result}
use pke.Vmm.Pte.{pte_v, has_flag, pte_to_pa, max_va}
use pke.Vmm.Maps.{lookup_pa, looked_up, unmap_page, unmap_loop, user_vm_unmap}
use pke.Vmm.Lookup.{Reaches, Reaches-agree, Reaches-write, page_walk-leaf}

pub lookup_pa-zero :
    {k : Kernel} {page_dir va leaf : ℕ}
    → Reaches k page_dir va leaf
    → k.mem leaf ≡ 0
    → lookup_pa page_dir va k ≡ ok 0 k
unfolding lookup_pa looked_up load has_flag
lookup_pa-zero {k} {page_dir} {va} {leaf} r empty =
    let low : leb max_va va ≡ false = (let b = r.below in ground arith) in
    rw (low, page_walk-leaf false r, ne→==_false leaf 0 r.not_null, empty) refl

-- The state after the page is given back and its entry is cleared.
abbrev pub unmapped : Kernel → ℕ → Pmm → Kernel
unmapped k leaf after = write_mem leaf 0 (record k { pmm = after })

unmap_page-leaf :
    (k : Kernel) (page_dir va leaf : ℕ) (after : Pmm)
    → Reaches k page_dir va leaf
    → has_flag (k.mem leaf) pte_v ≡ true
    → pfree (pte_to_pa (k.mem leaf)) k.pmm ≡ ok tt after
    → unmap_page page_dir va true k ≡ ok tt (unmapped k leaf after)
unfolding unmap_page load store on_pmm on_pmm_result
unmap_page-leaf k page_dir va leaf after r valid freed =
    rw (page_walk-leaf false r, ne→==_false leaf 0 r.not_null, valid, freed) refl

unmap_loop-step :
    (fuel page_dir va stop_at : ℕ) (k t : Kernel)
    → ltb va stop_at ≡ true
    → unmap_page page_dir va true k ≡ ok tt t
    → unmap_loop (suc fuel) page_dir va stop_at true k
      ≡ unmap_loop fuel page_dir ((va + page_size) % 2 ^ 64) stop_at true t
unfolding unmap_loop
unmap_loop-step fuel page_dir va stop_at k t more run = rw (unmap_loop, more, run) refl

unmap_loop-stop :
    (fuel page_dir va stop_at : ℕ) (k : Kernel)
    → ltb va stop_at ≡ false
    → unmap_loop (suc fuel) page_dir va stop_at true k ≡ ok tt k
unfolding unmap_loop
unmap_loop-stop fuel page_dir va stop_at k done = rw (unmap_loop, done) refl

pub user_vm_unmap-leaf :
    (k : Kernel) (page_dir va leaf : ℕ) (after : Pmm)
    → Reaches k page_dir va leaf
    → va % page_size ≡ 0
    → has_flag (k.mem leaf) pte_v ≡ true
    → pfree (pte_to_pa (k.mem leaf)) k.pmm ≡ ok tt after
    → user_vm_unmap page_dir va page_size true k ≡ ok tt (unmapped k leaf after)
unfolding user_vm_unmap
user_vm_unmap-leaf k page_dir va leaf after r aligned valid freed =
    let first : round_down va page_size ≡ va =
      round_down-page va (omega (arith, r.below)) ∙ omega arith in
    let end : (va + page_size) % 2 ^ 64 ≡ va + page_size = omega (arith, r.below) in
    let t : Kernel = unmapped k leaf after in
    rw (first, end)
      (unmap_loop-step _ page_dir va (va + page_size) k t (ground arith)
          (unmap_page-leaf k page_dir va leaf after r valid freed)
        ∙ unmap_loop-stop _ page_dir ((va + page_size) % 2 ^ 64) (va + page_size) t
            (ground (arith, end)))

-- user_vm_unmap of one mapped page, when pfree takes the page back, clears its entry and nothing
-- else in memory; lookup_pa finds nothing there afterwards.
pub user_vm_unmap-lookup_pa :
    (k : Kernel) (page_dir va leaf : ℕ) (after : Pmm)
    → Reaches k page_dir va leaf
    → va % page_size ≡ 0
    → has_flag (k.mem leaf) pte_v ≡ true
    → pfree (pte_to_pa (k.mem leaf)) k.pmm ≡ ok tt after
    → Returns
        (λ _ t.
          (lookup_pa page_dir va t ≡ ok 0 t)
          × (t.pmm ≡ after)
          × ((a : ℕ) → a ≢ leaf → t.mem a ≡ k.mem a))
        (user_vm_unmap page_dir va page_size true k)
user_vm_unmap-lookup_pa k page_dir va leaf after r aligned valid freed =
    let r' : Reaches (unmapped k leaf after) page_dir va leaf =
      Reaches-write 0 (Reaches-agree r refl refl) in
    rw (user_vm_unmap-leaf k page_dir va leaf after r aligned valid freed)
      (returns (lookup_pa-zero r' (ground arith), refl, λ a ne. ground arith))
