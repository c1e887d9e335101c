-- ===== src/Process/Shared.antt =====
-- What do_fork of kernel/process.c does with one page of a stack or heap: parent and child share
-- it.
use pke.Base.{
  ℕ, refl, ◌^◌, ◌%◌, ◌/◌, ◌<◌, ◌≡◌, ◌≢◌, ap, ◌∙◌, true, false, arith, Cmd, ok, Returns, returns,
  ne→==_false,
}
use pke.Pmm.State.{Pmm}
use pke.Kernel.{Kernel, load, store, write_mem}
use pke.Sched.Next.{Image}
use pke.Vmm.Pte.{pte_v, pte_r, pte_w, has_flag, pte_to_pa}
use pke.Vmm.Maps.{lookup_pa}
use pke.Vmm.Lookup.{
  Off, Reaches, Reaches-agree, Reaches-write, page_walk-leaf, lookup_pa-valid, has_flag-v,
  has_flag-r, has_flag-v_bit, has_flag-r_bit,
}
use pke.Process.Fork.{cow_entry, share_entry}
use pke.Trap.Cow.{cow_entry-kept, unshared-cow_entry}

-- The entry of a private page: valid, readable, writable and not marked for copy on write.
pub record Private (w : ℕ) : Type 0 where
  pub word : w < 2 ^ 64
  pub valid : has_flag w pte_v ≡ true
  pub readable : has_flag w pte_r ≡ true
  pub writable : has_flag w pte_w ≡ true
  pub unmarked : w / 2 ^ 8 % 2 ≡ 0

cow_entry-v : (w : ℕ) → Private w → has_flag (cow_entry w) pte_v ≡ true
cow_entry-v w p =
    let (v, _) = cow_entry-kept w p.word p.writable in
    has_flag-v (cow_entry w) (v ∙ has_flag-v_bit w p.valid)

cow_entry-r : (w : ℕ) → Private w → has_flag (cow_entry w) pte_r ≡ true
cow_entry-r w p =
    let (_, r) = cow_entry-kept w p.word p.writable in
    has_flag-r (cow_entry w) (r ∙ has_flag-r_bit w p.readable)

-- Where an entry holds what do_fork makes of a private one, lookup_pa finds the page.
pub lookup_pa-cow_entry :
    {t : Kernel} {page_dir va leaf : ℕ} (w : ℕ)
    → Private w
    → Reaches t page_dir va leaf
    → t.mem leaf ≡ cow_entry w
    → lookup_pa page_dir va t ≡ ok (pte_to_pa w) t
lookup_pa-cow_entry {t} w p r holds =
    let (_, same, _, _) = unshared-cow_entry w p.word p.writable p.unmarked in
    lookup_pa-valid r (ap (λ (v : ℕ). has_flag v pte_v) holds ∙ cow_entry-v w p)
      (ap (λ (v : ℕ). has_flag v pte_r) holds ∙ cow_entry-r w p)
    ∙ ap (λ (a : ℕ). ok a t) (ap pte_to_pa holds ∙ same)

module _ (im : Image) (get_page : ℕ → Cmd Kernel (Unit {0})) (k : Kernel)
    (parent_table child_table va pte leaf : ℕ) where
  -- do_fork's step for one page of a stack or heap of the parent, whose entry is valid, readable,
  -- writable and not marked, when the child's tables for the page are there, the entries and tables
  -- of the two processes are apart and get_page only touches the page descriptors: afterwards both
  -- tables lead to the page of the parent, neither entry is writable, both are marked PTE_COW, and
  -- no other word of memory has changed.
  pub share_entry-Shared :
      (counted : ℕ → Kernel → Pmm)
      → ((pa : ℕ) (s : Kernel) → get_page pa s ≡ ok tt (record s { pmm = counted pa s }))
      → (rp : Reaches k parent_table va pte) → (rc : Reaches k child_table va leaf) → Off rp leaf
      → Off rc pte
      → leaf ≢ pte
      → Private (k.mem pte)
      → Returns
          (λ _ t.
            (t.mem pte ≡ cow_entry (k.mem pte))
            × (t.mem leaf ≡ cow_entry (k.mem pte))
            × (has_flag (cow_entry (k.mem pte)) pte_w ≡ false)
            × (cow_entry (k.mem pte) / 2 ^ 8 % 2 ≡ 1)
            × (lookup_pa parent_table va t ≡ ok (pte_to_pa (k.mem pte)) t)
            × (lookup_pa child_table va t ≡ ok (pte_to_pa (k.mem pte)) t)
            × ((a : ℕ) → a ≢ pte → a ≢ leaf → t.mem a ≡ k.mem a))
          (share_entry im get_page child_table va pte k)
  unfolding share_entry load store
  share_entry-Shared counted counts rp rc off_p off_c apart p =
      let w : ℕ = k.mem pte in
      let c : ℕ = cow_entry w in
      let s : Kernel = record (write_mem pte c k) {
        pmm = counted (pte_to_pa c) (write_mem pte c k);
      } in
      let t : Kernel = write_mem leaf c s in
      let (_, same, closed, marked) = unshared-cow_entry w p.word p.writable p.unmarked in
      let rp' : Reaches t parent_table va pte =
        Reaches-agree rp (rw (ne→==_false _ _ off_p.not_top, ne→==_false _ _ rp.not_top) refl)
          (rw (ne→==_false _ _ off_p.not_medium, ne→==_false _ _ rp.not_medium) refl) in
      let rs : Reaches s child_table va leaf =
        Reaches-agree rc (rw (ne→==_false _ _ off_c.not_top) refl)
          (rw (ne→==_false _ _ off_c.not_medium) refl) in
      let rc' : Reaches t child_table va leaf = Reaches-write c rs in
      let at_pte : t.mem pte ≡ c = ground arith in
      let at_leaf : t.mem leaf ≡ c = ground arith in
      let old : s.mem pte ≡ c = ground arith in
      rw
        (
          p.valid,
          counts (pte_to_pa c) (write_mem pte c k),
          page_walk-leaf true rs,
          ne→==_false leaf 0 rc.not_null,
          old,
        )
        (returns (
          at_pte,
          at_leaf,
          closed,
          marked,
          lookup_pa-cow_entry w p rp' at_pte,
          lookup_pa-cow_entry w p rc' at_leaf,
          λ a off off'. ground arith,
        ))
