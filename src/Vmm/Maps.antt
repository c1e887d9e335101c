-- ===== src/Vmm/Maps.antt =====
-- map_pages, lookup_pa, user_va_to_pa, user_vm_map and user_vm_unmap of kernel/vmm.c.
use pke.Base.{
  ℕ, zero, suc, ◌+◌, ◌-◌, ◌/◌, ◌%◌, ◌^◌, Bool, true, false, bit_and, bit_or, ◌==◌, ltb, leb, ◌&&◌,
  ◌||◌, not, if◌then◌else◌, Cmd, ok, halt, spinning, panicked, ensure, pure, ◌>>=◌, ◌>>◌,
}
use pke.Pmm.State.{page_size}
use pke.Pmm.Init.{round_down}
use pke.Pmm.Cache.{pfree}
use pke.Kernel.{Kernel, load, store, on_pmm}
use pke.Vmm.Pte.{pte_v, pte_r, pte_w, has_flag, pa_to_pte, pte_to_pa, max_va}
use pke.Vmm.Walk.{page_walk}

-- The body of the loop of map_pages; `false` is the return of -1.
unfoldable pub map_page : ℕ → ℕ → ℕ → ℕ → Cmd Kernel Bool
map_page page_dir first pa perm = do
  pte ← page_walk page_dir first 0 true
  (if pte == 0 then pure false else do
    w ← load pte
    ensure (not (has_flag w pte_v)) panicked
    store pte (bit_or (bit_or (pa_to_pte pa) perm) pte_v)
    pure true)

-- `for (; first <= last; first += PGSIZE, pa += PGSIZE)`, with fuel.
unfoldable pub map_loop : ℕ → ℕ → ℕ → ℕ → ℕ → ℕ → Cmd Kernel Bool
map_loop zero page_dir first stop_at pa perm k = halt spinning
map_loop (suc fuel) page_dir first stop_at pa perm k = elim (leb first stop_at) [
  | false ↦ ok true k
  | true ↦
      (do
        fine ← map_page page_dir first pa perm
        (λ t. elim fine [
          | false ↦ ok false t
          | true ↦
              map_loop fuel page_dir ((first + page_size) % 2 ^ 64) stop_at
                ((pa + page_size) % 2 ^ 64) perm t
        ]))
        k
]

-- `true` is the return of 0.
unfoldable pub map_pages : ℕ → ℕ → ℕ → ℕ → ℕ → Cmd Kernel Bool
map_pages page_dir va size pa perm =
    let first : ℕ = round_down va page_size in
    let stop_at : ℕ = round_down ((va + size + 2 ^ 64 - 1) % 2 ^ 64) page_size in
    map_loop (suc (suc ((stop_at - first) / page_size))) page_dir first stop_at pa perm

-- kern_vm_map and user_vm_map, which differ in their messages.
unfoldable pub kern_vm_map : ℕ → ℕ → ℕ → ℕ → ℕ → Cmd Kernel (Unit {0})
kern_vm_map page_dir va pa sz perm = do
  fine ← map_pages page_dir va sz pa perm
  ensure fine panicked

unfoldable pub user_vm_map : ℕ → ℕ → ℕ → ℕ → ℕ → Cmd Kernel (Unit {0})
user_vm_map page_dir va size pa perm = do
  fine ← map_pages page_dir va size pa perm
  ensure fine panicked

unfoldable pub looked_up : ℕ → ℕ
looked_up w =
    if not (has_flag w pte_v) || (not (has_flag w pte_r) && not (has_flag w pte_w))
    then 0
    else pte_to_pa w

unfoldable pub lookup_pa : ℕ → ℕ → Cmd Kernel ℕ
lookup_pa pagetable va = if leb max_va va then pure 0 else do
  pte ← page_walk pagetable va 0 false
  w ← load pte
  pure (if pte == 0 then 0 else looked_up w)

unfoldable pub user_va_to_pa : ℕ → ℕ → Cmd Kernel ℕ
user_va_to_pa page_dir va = do
  pte ← page_walk page_dir va 0 false
  w ← load pte
  pure (
      if pte == 0 || not (has_flag w pte_v)
      then 0
      else bit_or (pte_to_pa w) (bit_and va (page_size - 1)))

-- The body of the loop of user_vm_unmap.
unfoldable pub unmap_page : ℕ → ℕ → Bool → Cmd Kernel (Unit {0})
unmap_page page_dir first_va free = do
  pte ← page_walk page_dir first_va 0 false
  w ← load pte
  (if pte == 0 || not (has_flag w pte_v)
      then pure tt
      else do (if free then on_pmm (pfree (pte_to_pa w)) else pure tt); store pte 0)

unfoldable pub unmap_loop : ℕ → ℕ → ℕ → ℕ → Bool → Cmd Kernel (Unit {0})
unmap_loop zero page_dir first_va stop_at free k = halt spinning
unmap_loop (suc fuel) page_dir first_va stop_at free k = elim (ltb first_va stop_at) [
  | false ↦ ok tt k
  | true ↦
      (unmap_page page_dir first_va free
          >> unmap_loop fuel page_dir ((first_va + page_size) % 2 ^ 64) stop_at free)
        k
]

unfoldable pub user_vm_unmap : ℕ → ℕ → ℕ → Bool → Cmd Kernel (Unit {0})
user_vm_unmap page_dir va size free =
    let first_va : ℕ = round_down va page_size in
    let stop_at : ℕ = (va + size) % 2 ^ 64 in
    unmap_loop (suc (suc ((stop_at - first_va) / page_size))) page_dir first_va stop_at free
