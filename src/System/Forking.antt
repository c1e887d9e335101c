-- ===== src/System/Forking.antt =====
-- The parts of alloc_process and do_fork that leave the states and the queue of the processes
-- alone.
use pke.Base.{
  ℕ, zero, suc, ◌+◌, ◌/◌, ◌^◌, refl, true, false, ◌==◌, not, Cmd, Always, fine, Always-bind,
  Always-if, Always-ensure, panicked, faulted,
}
use pke.Pmm.State.{page_size}
use pke.Pmm.Cache.{alloc_page}
use pke.Kernel.{Kernel, Process, load}
use pke.Sched.Next.{Image}
use pke.Vmm.Pte.{pte_v, has_flag}
use pke.Process.Pool.{
  region, region_va, region_npages, region_seg_type, write_region, stack_segment, context_segment,
  heap_segment, code_segment, init_pages, init_regions, init_process,
}
use pke.Process.Fork.{
  share_entry, share_pages, map_code, fork_shared, fork_code, fork_region, fork_regions,
}
use pke.System.Still.{
  Still, Still-store, on_pmm-Still, zero_words-Still, copy_words-Still, page_walk-Still,
  user_vm_map-Still, lookup_pa-Still, Still-write,
}

module _ (k₀ : Kernel) where
  init_pages-Still : (i : ℕ) (k : Kernel) → Still k₀ k → Always (Still k₀) (init_pages i k)
  unfolding init_pages
  init_pages-Still i k h = Always-bind (on_pmm-Still k₀ alloc_page k h) λ tf k₁ h₁.
      Always-bind (zero_words-Still k₀ tf _ _ (Still-write k₀ i _ k₁ refl refl h₁)) λ _ k₂ h₂.
        Always-bind (on_pmm-Still k₀ alloc_page k₂ h₂) λ pt k₃ h₃.
          Always-bind (zero_words-Still k₀ pt _ _ (Still-write k₀ i _ k₃ refl refl h₃)) λ _ k₄ h₄.
            Always-bind (on_pmm-Still k₀ alloc_page k₄ h₄) λ kstack k₅ h₅.
              Always-bind (on_pmm-Still k₀ alloc_page _ (Still-write k₀ i _ k₅ refl refl h₅))
                λ us k₆ h₆. Always-bind (Still-store k₀ _ _ k₆ h₆) λ _ k₇ h₇.
                  Always-bind (on_pmm-Still k₀ alloc_page k₇ h₇) λ mi k₈ h₈.
                    Always-bind (zero_words-Still k₀ mi _ _ (Still-write k₀ i _ k₈ refl refl h₈))
                      λ _ k₉ h₉. fine h₉

  write_region-Still :
      (info i va npages seg_type : ℕ) (k : Kernel)
      → Still k₀ k
      → Always (Still k₀) (write_region info i va npages seg_type k)
  unfolding write_region
  write_region-Still info i va npages seg_type k h =
      Always-bind (Still-store k₀ _ va k h) λ _ s hs. Still-store k₀ _ _ s hs

  init_regions-Still :
      (im : Image) (i user_stack : ℕ) (k : Kernel)
      → Still k₀ k
      → Always (Still k₀) (init_regions im i user_stack k)
  unfolding init_regions
  init_regions-Still im i user_stack k h =
      let p : Process = k.procs i in
      Always-bind (user_vm_map-Still k₀ p.pagetable _ _ _ _ k h) λ _ k₁ h₁.
        Always-bind (write_region-Still p.mapped_info _ _ _ _ k₁ h₁) λ _ k₂ h₂.
          Always-bind (user_vm_map-Still k₀ p.pagetable _ _ _ _ k₂ h₂) λ _ k₃ h₃.
            Always-bind (write_region-Still p.mapped_info _ _ _ _ k₃ h₃) λ _ k₄ h₄.
              Always-bind (user_vm_map-Still k₀ p.pagetable _ _ _ _ k₄ h₄) λ _ k₅ h₅.
                Always-bind (write_region-Still p.mapped_info _ _ _ _ k₅ h₅) λ _ k₆ h₆.
                  Always-bind
                    (write_region-Still p.mapped_info _ _ _ _ _
                      (Still-write k₀ i _ k₆ refl refl h₆))
                    λ _ k₇ h₇. fine (Still-write k₀ i _ k₇ refl refl h₇)

  pub init_process-Still :
      (im : Image) (i : ℕ) (k : Kernel) → Still k₀ k → Always (Still k₀) (init_process im i k)
  unfolding init_process
  init_process-Still im i k h =
      Always-bind (init_pages-Still i k h)
        λ us s hs. Always-bind (init_regions-Still im i us s hs) λ _ t ht. fine ht

  -- Sharing the pages of the parent, when get_page leaves the processes alone.
  module _ (im : Image) (get_page : ℕ → Cmd Kernel (Unit {0}))
      (counts : (pa : ℕ) (k : Kernel) → Still k₀ k → Always (Still k₀) (get_page pa k)) where
    share_entry-Still :
        (table va pte : ℕ) (k : Kernel)
        → Still k₀ k
        → Always (Still k₀) (share_entry im get_page table va pte k)
    unfolding share_entry load
    share_entry-Still table va pte k h =
        Always-if (not (has_flag (k.mem pte) pte_v)) _ _ k (fine h) (
          Always-bind (Still-store k₀ pte _ k h) λ _ s hs. Always-bind (counts _ s hs) λ _ t ht.
            Always-bind (page_walk-Still k₀ table va 0 true t ht) λ c_pte u hu.
              Always-bind (Always-ensure (not (c_pte == 0)) panicked u hu)
                λ _ v hv. Still-store k₀ c_pte _ v hv)

    share_pages-Still :
        (rounds parent child va n : ℕ) (k : Kernel)
        → Still k₀ k
        → Always (Still k₀) (share_pages im get_page rounds parent child va n k)
    unfolding share_pages
    share_pages-Still zero parent child va n k h = fine h
    share_pages-Still (suc rounds) parent child va n k h =
        Always-bind (page_walk-Still k₀ parent _ 0 false k h) λ pte s hs.
          Always-bind (Always-ensure (not (pte == 0)) faulted s hs) λ _ t ht.
            Always-bind (share_entry-Still child _ pte t ht)
              λ _ u hu. share_pages-Still rounds parent child va (n + 1) u hu

    map_code-Still :
        (rounds parent child va n : ℕ) (k : Kernel)
        → Still k₀ k
        → Always (Still k₀) (map_code im get_page rounds parent child va n k)
    unfolding map_code
    map_code-Still zero parent child va n k h = fine h
    map_code-Still (suc rounds) parent child va n k h =
        Always-bind (lookup_pa-Still k₀ parent _ k h) λ pa s hs.
          Always-bind (user_vm_map-Still k₀ child _ page_size pa _ s hs)
            λ _ t ht. map_code-Still rounds parent child va (n + 1) t ht

    fork_shared-Still :
        (parent child i seg_type : ℕ) (k : Kernel)
        → Still k₀ k
        → Always (Still k₀) (fork_shared im get_page parent child i seg_type k)
    unfolding fork_shared region_va region_npages load
    fork_shared-Still parent child i seg_type k h =
        Always-bind
          (share_pages-Still _ (k.procs parent).pagetable (k.procs child).pagetable _ 0 k h)
          λ _ s hs.
            Always-if (seg_type == heap_segment) _ _ s
              (fine (Still-write k₀ child _ s refl refl hs)) (fine hs)

    fork_code-Still :
        (parent child i : ℕ) (k : Kernel)
        → Still k₀ k
        → Always (Still k₀) (fork_code im get_page parent child i k)
    unfolding fork_code region_va region_npages load
    fork_code-Still parent child i k h =
        Always-bind (lookup_pa-Still k₀ (k.procs parent).pagetable _ k h) λ _ s hs.
          Always-bind (map_code-Still _ _ _ _ 0 s hs) λ _ t ht.
            Always-bind (write_region-Still _ _ _ _ _ t ht)
              λ _ u hu. fine (Still-write k₀ child _ u refl refl hu)

    fork_region-Still :
        (parent child i : ℕ) (k : Kernel)
        → Still k₀ k
        → Always (Still k₀) (fork_region im get_page parent child i k)
    unfolding fork_region region_seg_type load
    fork_region-Still parent child i k h =
        let seg : ℕ = k.mem (region (k.procs parent).mapped_info i + 8) / 2 ^ 32 in
        Always-if (seg == context_segment) _ _ k (copy_words-Still k₀ _ _ _ k h) (
          Always-if (seg == stack_segment) _ _ k (fork_shared-Still parent child i seg k h) (
            Always-if (seg == heap_segment) _ _ k (fork_shared-Still parent child i seg k h) (
              Always-if (seg == code_segment) _ _ k (fork_code-Still parent child i k h) (fine h))))

    pub fork_regions-Still :
        (rounds parent child i : ℕ) (k : Kernel)
        → Still k₀ k
        → Always (Still k₀) (fork_regions im get_page rounds parent child i k)
    unfolding fork_regions
    fork_regions-Still zero parent child i k h = fine h
    fork_regions-Still (suc rounds) parent child i k h =
        Always-bind (fork_region-Still parent child i k h)
          λ _ s hs. fork_regions-Still rounds parent child (i + 1) s hs
