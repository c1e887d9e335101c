-- ===== src/Process/Report.antt =====
-- print_proc_vmspace of kernel/vmm.c, with the lines that it prints as its value.
use pke.Base.{
  ℕ, zero, suc, ◌+◌, ◌/◌, ◌%◌, ◌^◌, ◌<◌, ◌≤◌, ◌≡◌, refl, true, false, ◌==◌, if◌then◌else◌, List, [],
  ◌∷◌, Option, none, some, Cmd, ok, get, pure, ◌>>=◌, arith, Returns, returns, Returns-bind,
  Returns-eq_ok, Option-cases, Bool-cases, inl, inr, leb, ltb, lt→ltb, ◌-◌,
}
use pke.Kernel.{Kernel, load}
use pke.Process.Pool.{
  region, region_va, region_npages, region_seg_type, stack_segment, context_segment, system_segment,
  code_segment, data_segment,
}
use pke.Vmm.Pte.{has_flag, max_va, pte_v}
use pke.Vmm.Walk.{entry, next_table, walk_down, page_walk}
use pke.Vmm.Maps.{lookup_pa}

-- What is printed for the type of a region: `CODE SEGMENT` and so on.
pub data TypeText : Type 0 where
  code_text data_text stack_text trapframe_text kernel_stack_text : TypeText

unfoldable pub type_text : ℕ → Option TypeText
type_text seg_type =
    if seg_type == code_segment
    then some code_text
    else if seg_type == data_segment
    then some data_text
    else if seg_type == stack_segment
    then some stack_text
    else if seg_type == context_segment
    then some trapframe_text
    else if seg_type == system_segment
    then some kernel_stack_text
    else none

-- `-va:%lx, npage:%d, type: ..., mapped to pa:%lx`.
pub record RegionLine : Type 0 where
  pub va : ℕ
  pub npages : ℕ
  pub type : Option TypeText
  pub pa : ℕ

unfoldable pub print_region : ℕ → ℕ → Cmd Kernel RegionLine
print_region proc i = do
  k ← get
  let info = (k.procs proc).mapped_info
  va ← region_va info i
  npages ← region_npages info i
  seg_type ← region_seg_type info i
  pa ← lookup_pa (k.procs proc).pagetable va
  pure (record { va = va; npages = npages; type = type_text seg_type; pa = pa })

-- `for (i = 0; i < proc->total_mapped_region; i++)`, with the regions left.
unfoldable pub print_regions : ℕ → ℕ → ℕ → Cmd Kernel (List RegionLine)
print_regions zero proc i = pure []
print_regions (suc rounds) proc i = do
  line ← print_region proc i
  lines ← print_regions rounds proc (i + 1)
  pure (line ∷ lines)

-- The heading names the process.
unfoldable pub print_proc_vmspace : ℕ → Cmd Kernel (ℕ × List RegionLine)
print_proc_vmspace proc = do
  k ← get
  lines ← print_regions (k.procs proc).total_mapped_region proc 0
  pure ((k.procs proc).pid, lines)

-- Looking an address up changes nothing.
next_table-same :
    (pt level va : ℕ) (k : Kernel) → Returns (λ _ t. t ≡ k) (next_table pt level va false k)
unfolding next_table load
next_table-same pt level va k = elim (Bool-cases (has_flag (k.mem (entry pt level va)) pte_v)) [
  | inl there ↦ rw there (returns refl)
  | inr missing ↦ rw missing (returns refl)
]

walk_down-same :
    (rounds level va pt : ℕ) (k : Kernel)
    → Returns (λ _ t. t ≡ k) (walk_down rounds level va false pt k)
unfolding walk_down
walk_down-same zero level va pt k = returns refl
walk_down-same (suc rounds) level va pt k = Returns-bind (next_table-same pt level va k) λ o t e.
    elim (Option-cases o) [
      | inl last ↦ rw last (returns e)
      | inr (pt', more) ↦ rw (more, e) (walk_down-same rounds (level - 1) va pt' k)
    ]

lookup_pa-same :
    (pagetable va : ℕ) (k : Kernel) → 0 < va → Returns (λ _ t. t ≡ k) (lookup_pa pagetable va k)
unfolding lookup_pa page_walk load
lookup_pa-same pagetable va k pos = elim (Bool-cases (leb max_va va)) [
  | inl far ↦ rw (far, lookup_pa) (returns refl)
  | inr near ↦
      let hi : ltb va max_va ≡ true = ground arith in
      rw (near, lookup_pa, lt→ltb 0 va pos, hi)
        (Returns-bind (Returns-bind (walk_down-same 2 2 va pagetable k) λ o t e. returns e)
          λ pte t e. returns e)
]

-- A line for the region `i` of a process.
pub record IsLine (k : Kernel) (proc i : ℕ) (line : RegionLine) : Type 0 where
  pub va : line.va ≡ k.mem (region (k.procs proc).mapped_info i)
  pub npages : line.npages ≡ k.mem (region (k.procs proc).mapped_info i + 8) % 2 ^ 32
  pub type : line.type ≡ type_text (k.mem (region (k.procs proc).mapped_info i + 8) / 2 ^ 32)
  pub pa : lookup_pa (k.procs proc).pagetable line.va k ≡ ok line.pa k

-- Lines for the regions from `i` up to `end`, in order.
abbrev pub IsReport : Kernel → ℕ → ℕ → ℕ → List RegionLine → Type 0
IsReport k proc i end [] = i ≡ end
IsReport k proc i end (line ∷ lines) = IsLine k proc i line × IsReport k proc (i + 1) end lines

print_region-IsLine :
    (k : Kernel) (proc i : ℕ)
    → 0 < k.mem (region (k.procs proc).mapped_info i)
    → Returns (λ line t. (t ≡ k) × IsLine k proc i line) (print_region proc i k)
unfolding print_region region_va region_npages region_seg_type load
print_region-IsLine k proc i pos =
    let (pa, t, run, e) = Returns-eq_ok (
      lookup_pa-same (k.procs proc).pagetable (k.mem (region (k.procs proc).mapped_info i)) k
        pos) in
    let run' = rw e at run in
    rw run' (returns (refl, record { va = refl; npages = refl; type = refl; pa = run' }))

print_regions-IsReport :
    (rounds proc i : ℕ) (k : Kernel)
    → ((j : ℕ) → i ≤ j → j < i + rounds → 0 < k.mem (region (k.procs proc).mapped_info j))
    → Returns
        (λ lines t. (t ≡ k) × IsReport k proc i (i + rounds) lines)
        (print_regions rounds proc i k)
unfolding print_regions
print_regions-IsReport zero proc i k mapped = returns (refl, omega arith)
print_regions-IsReport (suc rounds) proc i k mapped =
    let len : i + suc rounds ≡ i + 1 + rounds = omega arith in
    Returns-bind (print_region-IsLine k proc i (mapped i (omega arith) (omega arith)))
      λ line t (e, is_line). rw e (
        Returns-bind
          (print_regions-IsReport rounds proc (i + 1) k
            (λ j lo hi. mapped j (omega (arith, lo)) (omega (arith, hi))))
          λ lines u (same, rest). returns (same, rw len (is_line, rest)))

-- Where every region of a process has an address above 0, print_proc_vmspace prints the number of
-- the process, then a line for each region in order, with its address, its number of pages, the
-- text for its type, if any, and where lookup_pa finds it, and it changes nothing.
pub print_proc_vmspace-IsReport :
    (proc : ℕ) (k : Kernel)
    → ((i : ℕ)
        → i < (k.procs proc).total_mapped_region
        → 0 < k.mem (region (k.procs proc).mapped_info i))
    → Returns
        (λ out t.
          (t ≡ k)
          × (out.0 ≡ (k.procs proc).pid)
          × IsReport k proc 0 (k.procs proc).total_mapped_region (out.1))
        (print_proc_vmspace proc k)
unfolding print_proc_vmspace
print_proc_vmspace-IsReport proc k mapped =
    Returns-bind
      (print_regions-IsReport (k.procs proc).total_mapped_region proc 0 k
        (λ j lo hi. mapped j (omega (arith, hi))))
      λ lines t (same, report).
        let all : 0 + (k.procs proc).total_mapped_region ≡ (k.procs proc).total_mapped_region =
          omega arith in
        returns (same, refl, rw all at report)
