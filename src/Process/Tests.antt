-- ===== src/Process/Tests.antt =====
-- Runs on the process pool and of do_fork.
use pke.Process.Sample.{child_dir, child_leaf, forking, in_table, two_pages}
use pke.Base.{◌<◌, none, some, [], ◌∷◌, ◌+◌, ◌*◌, ◌≢◌, refl, arith, ok, Returns, ℕ, ◌≡◌}
use pke.Process.Region.{page_va, AnEntry, IsShared, share_pages-Shared}
use pke.Process.Fork.{share_pages, finish_fork}
use pke.Kernel.{Kernel}
use pke.Pmm.State.{Pmm, write_page, addr_to_pfn}
use pke.Process.Forked.{finish_fork-Queued}
use pke.Sched.Queue.{IsQueue}
use pke.Samples.{image, machine, page_dir, leaf_table}

-- One reader more for the page at `pa`.
abbrev counted : ℕ → Kernel → Pmm
counted pa k = record (k.pmm) {
  area =
      write_page (addr_to_pfn pa)
        (record (k.pmm.area.pages (addr_to_pfn pa)) {
          ref = (k.pmm.area.pages (addr_to_pfn pa)).ref + 1;
        })
        (k.pmm.area);
}

share_pages-Shared_example :
    Returns
      (λ _ t.
        ((j : ℕ)
          → j < 2
          → IsShared forking t page_dir child_dir
              (page_va 0x40_0000 j)
              (in_table leaf_table j)
              (in_table child_leaf j))
        × ((a : ℕ)
            → ¬ AnEntry 2 (in_table leaf_table) (in_table child_leaf) a
            → t.mem a ≡ forking.mem a))
      (share_pages image
        (λ pa k. ok tt (record k { pmm = counted pa k }))
        2
        page_dir
        child_dir
        0x40_0000
        0
        forking)
share_pages-Shared_example =
    share_pages-Shared forking page_dir child_dir 0x40_0000 2 (in_table leaf_table)
      (in_table child_leaf) two_pages image (λ pa k. ok tt (record k { pmm = counted pa k }))
      counted (λ pa s. refl)

two_wait : IsQueue machine (1 ∷ 2 ∷ [])
two_wait = record {
  linked = (refl, (refl, refl));
  distinct = (refl, (refl, tt));
  within = omega arith;
  all_ready = λ p h. ground arith;
}

finish_fork-Queued_example :
    Returns
      (λ pid t.
        (pid ≡ 5)
        × IsQueue t (1 ∷ 2 ∷ 5 ∷ [])
        × ((t.procs 5).parent ≡ some 3)
        × (t.mem 0x8020_5048 ≡ 0)
        × (t.mem 0x8020_5018 ≡ 0x8000_8000 + 5 * 400)
        × ((a : ℕ) → a ≢ 0x8020_5048 → a ≢ 0x8020_5018 → t.mem a ≡ machine.mem a)
        × (t.current ≡ none)
        × ((p : ℕ) → p ≢ 5 → (t.procs p).status ≡ (machine.procs p).status))
      (finish_fork image (λ pa k. ok tt (record k { pmm = counted pa k })) 3 5 machine)
finish_fork-Queued_example =
    finish_fork-Queued image (λ pa k. ok tt (record k { pmm = counted pa k })) 3 5 machine
      (1 ∷ 2 ∷ []) two_wait refl (omega arith)
