-- ===== src/Boot/Stays.antt =====
-- What the loader of kernel/elf.c calls of the page allocator and the page tables never leaves for
-- user mode.
use pke.Base.{
  ℕ, zero, suc, ◌-◌, ◌≡◌, refl, Bool, true, false, ◌==◌, ltb, leb, not, ◌||◌, ◌&&◌, if◌then◌else◌,
  Bool-cases, Option-cases, inl, inr, Option, none, some, Halt, Run, Cmd, ok, pure, to_user, halt,
  and_then, NoReturn, left, halted, ensure, panicked, get_elem?, length,
}
use pke.Pmm.State.{
  Page, Area, Pmm, Cache, addr_to_pfn, pcpu_cache_size, load_page, store_page, on_area_result,
}
use pke.Pmm.Buddy.{lock_acquire, lock_release, merge_loop, buddy_merge_inner}
use pke.Pmm.Cache.{
  load_cache, store_cache, load_obj, store_obj, refill_locked, alloc_page, drain, drain_locked,
  disable_irqsave, enable_irqrestore, pfree_block, pfree_page, pfree,
}
use pke.Pmm.Reuse.{refill_locked-spins}
use pke.Kernel.{Kernel, load, store, zero_words, on_pmm, on_pmm_result}
use pke.Vmm.Pte.{pte_v, has_flag, max_va}
use pke.Vmm.Walk.{entry, cas_zero, hang_table, new_table, next_table, walk_down, page_walk}
use pke.Vmm.Maps.{map_page, map_loop, map_pages, user_vm_map}

module _ {S : Type 0} where
  -- The run returns or stops.
  pub data Stays {A : Type 0} : Run S A → Type 0 where
    back : {a : A} {s : S} → Stays (ok a s)
    ended : {h : Halt} → Stays (halt h)

  pub Stays-bind :
      {A B : Type 0} {r : Run S A} (k : A → Cmd S B)
      → Stays r
      → ((a : A) (s : S) → Stays (k a s))
      → Stays (and_then r k)
  Stays-bind k back next = next _ _
  Stays-bind k ended next = ended

  pub Stays-cases :
      {A : Type 0} (b : Bool) (r t : Run S A)
      → Stays r
      → Stays t
      → Stays (elim b [ true ↦ r | false ↦ t ])
  Stays-cases true r t p q = p
  Stays-cases false r t p q = q

  pub Stays-if :
      {A : Type 0} (b : Bool) (m n : Cmd S A) (s : S)
      → Stays (m s)
      → Stays (n s)
      → Stays ((if b then m else n) s)
  Stays-if true m n s p q = p
  Stays-if false m n s p q = q

  pub Stays-some :
      {A B : Type 0} (o : Option A) (r : Run S B) (f : A → Run S B)
      → Stays r
      → ((a : A) → Stays (f a))
      → Stays (elim o [ none ↦ r | some a ↦ f a ])
  Stays-some none r f p q = p
  Stays-some (some a) r f p q = q a

  pub Stays-ensure : (b : Bool) (h : Halt) (s : S) → Stays (ensure b h s)
  Stays-ensure true h s = back
  Stays-ensure false h s = ended

  -- A run that stays and does not return has stopped.
  pub NoReturn-Stays : {A : Type 0} {r : Run S A} → NoReturn r → Stays r → (h : Halt) × (r ≡ halt h)
  NoReturn-Stays halted p = (_, refl)
  NoReturn-Stays left p = elim p [ ]

-- On the page descriptors.
load_page-Stays : (p : ℕ) (s : Area) → Stays (load_page p s)
unfolding load_page
load_page-Stays p s = elim (Bool-cases (ltb p s.nr_pages)) [
  | inl e ↦ rw e back
  | inr e ↦ rw e ended
]

store_page-Stays : (p : ℕ) (q : Page) (s : Area) → Stays (store_page p q s)
unfolding store_page
store_page-Stays p q s = elim (Bool-cases (ltb p s.nr_pages)) [
  | inl e ↦ rw e back
  | inr e ↦ rw e ended
]

merge_loop-Stays : (rounds pfn order : ℕ) (s : Area) → Stays (merge_loop rounds pfn order s)
unfolding merge_loop
merge_loop-Stays zero pfn order s = back
merge_loop-Stays (suc rounds) pfn order s = Stays-bind _ (load_page-Stays _ s) λ b s₁.
    Stays-if (not (b.order == order) || not (b.is_free == 1) || not (b.is_head == 1)) _ _ s₁ back (
      Stays-bind _ (store_page-Stays _ _ _) λ _ s₂.
        Stays-bind _ (load_page-Stays _ s₂)
          λ q s₃. Stays-bind _ (store_page-Stays _ _ s₃) λ _ s₄. merge_loop-Stays rounds _ _ s₄)

buddy_merge_inner-Stays : (pfn : ℕ) (s : Area) → Stays (buddy_merge_inner pfn s)
unfolding buddy_merge_inner
buddy_merge_inner-Stays pfn s = Stays-bind _ (load_page-Stays pfn s) λ p s₁.
    Stays-bind _ (store_page-Stays pfn _ s₁) λ _ s₂.
      Stays-bind _ (merge_loop-Stays _ pfn _ s₂) λ stop_at s₃.
        Stays-bind _ (load_page-Stays _ s₃)
          λ q s₄. Stays-bind _ (store_page-Stays _ _ s₄) λ _ s₅. back

on_area-Stays : {A : Type 0} (m : Pmm) (r : Run Area A) → Stays r → Stays (on_area_result m r)
on_area-Stays m (ok a s) p = back
on_area-Stays m (to_user s) p = elim p [ ]
on_area-Stays m (halt h) p = ended

-- On the allocator.
load_cache-Stays : (id : ℕ) (m : Pmm) → Stays (load_cache id m)
unfolding load_cache
load_cache-Stays id m = elim (Bool-cases (ltb id 1)) [ inl e ↦ rw e back | inr e ↦ rw e ended ]

store_cache-Stays : (id : ℕ) (c : Cache) (m : Pmm) → Stays (store_cache id c m)
unfolding store_cache
store_cache-Stays id c m = elim (Bool-cases (ltb id 1)) [ inl e ↦ rw e back | inr e ↦ rw e ended ]

load_obj-Stays : (c : Cache) (i : ℕ) (m : Pmm) → Stays (load_obj c i m)
unfolding load_obj
load_obj-Stays c i m = elim (Option-cases (get_elem? c.objs i)) [
  | inl e ↦ rw (e, load_obj) ended
  | inr (p, e) ↦ rw (e, load_obj) back
]

store_obj-Stays : (c : Cache) (i p : ℕ) (m : Pmm) → Stays (store_obj c i p m)
unfolding store_obj
store_obj-Stays c i p m = elim (Bool-cases (ltb i (length c.objs))) [
  | inl e ↦ rw e back
  | inr e ↦ rw e ended
]

lock_acquire-Stays : (m : Pmm) → Stays (lock_acquire m)
unfolding lock_acquire
lock_acquire-Stays m = elim (Bool-cases (m.lock == 0)) [ inl e ↦ rw e back | inr e ↦ rw e ended ]

pub alloc_page-Stays : (m : Pmm) → Stays (alloc_page m)
unfolding alloc_page
alloc_page-Stays m = Stays-bind _ (load_cache-Stays m.tp m) λ c m₁.
    Stays-bind _
      (Stays-if (c.count == 0) (refill_locked m.tp) (pure tt) m₁
        (rw (refill_locked-spins m.tp m₁) ended) back)
      λ _ m₂. Stays-bind _ (load_cache-Stays m.tp m₂) λ d m₃.
        Stays-bind _ (store_cache-Stays m.tp _ m₃)
          λ _ m₄. Stays-bind _ (load_obj-Stays d _ m₄) λ p m₅. back

drain-Stays : (rounds id : ℕ) (m : Pmm) → Stays (drain rounds id m)
unfolding drain
drain-Stays zero id m = back
drain-Stays (suc rounds) id m = Stays-bind _ (load_cache-Stays id m) λ c m₁.
    Stays-bind _ (store_cache-Stays id _ m₁) λ _ m₂. Stays-bind _ (load_obj-Stays c _ m₂) λ p m₃.
      Stays-bind _ (on_area-Stays m₃ _ (buddy_merge_inner-Stays p m₃.area))
        λ _ m₄. drain-Stays rounds id m₄

enable_irqrestore-Stays : (flags : ℕ) (m : Pmm) → Stays (enable_irqrestore flags m)
unfolding enable_irqrestore
enable_irqrestore-Stays flags m = elim (Bool-cases (flags == 0)) [
  | inl e ↦ rw e back
  | inr e ↦ rw e back
]

pfree_block-Stays : (p : ℕ) (m : Pmm) → Stays (pfree_block p m)
unfolding pfree_block disable_irqsave lock_release
pfree_block-Stays p m = Stays-bind _ (lock_acquire-Stays _) λ _ m₁.
    Stays-bind _ (on_area-Stays m₁ _ (buddy_merge_inner-Stays p m₁.area))
      λ _ m₂. enable_irqrestore-Stays _ _

pfree_page-Stays : (p : ℕ) (m : Pmm) → Stays (pfree_page p m)
unfolding pfree_page disable_irqsave drain_locked lock_release
pfree_page-Stays p m = Stays-bind _ (load_cache-Stays m.tp _) λ c m₁.
    Stays-bind _
      (Stays-if (c.count == pcpu_cache_size) (drain_locked m.tp) (pure tt) m₁
        (Stays-bind _ (lock_acquire-Stays m₁)
          λ _ n. Stays-bind _ (drain-Stays 16 m.tp n) λ _ n'. back)
        back)
      λ _ m₂. Stays-bind _ (load_cache-Stays m.tp m₂) λ d m₃.
        Stays-bind _ (store_obj-Stays d _ p m₃)
          λ d' m₄. Stays-bind _ (store_cache-Stays m.tp _ m₄) λ _ m₅. enable_irqrestore-Stays _ m₅

pfree-Stays : (addr : ℕ) (m : Pmm) → Stays (pfree addr m)
unfolding pfree
pfree-Stays addr m = Stays-bind _ (on_area-Stays m _ (load_page-Stays _ m.area)) λ q m₁.
    Stays-if (q.order == 0) _ _ m₁ (pfree_page-Stays (addr_to_pfn addr) m₁)
      (pfree_block-Stays (addr_to_pfn addr) m₁)

on_pmm_result-Stays :
    {A : Type 0} (k : Kernel) (r : Run Pmm A) → Stays r → Stays (on_pmm_result k r)
unfolding on_pmm_result
on_pmm_result-Stays k (ok a m) p = back
on_pmm_result-Stays k (to_user m) p = elim p [ ]
on_pmm_result-Stays k (halt h) p = ended

pub on_pmm-Stays : {A : Type 0} (c : Cmd Pmm A) (k : Kernel) → Stays (c k.pmm) → Stays (on_pmm c k)
unfolding on_pmm
on_pmm-Stays c k p = on_pmm_result-Stays k (c k.pmm) p

-- On page tables.
hang_table-Stays : (pte pt : ℕ) (k : Kernel) → Stays (hang_table pte pt k)
unfolding hang_table cas_zero zero_words store load
hang_table-Stays pte pt k = Stays-bind _ (Stays-cases (k.mem pte == 0) _ _ back back) λ taken s.
    Stays-if taken _ _ s back
      (Stays-bind _ (on_pmm-Stays (pfree pt) s (pfree-Stays pt s.pmm)) λ _ t. back)

new_table-Stays : (pte : ℕ) (k : Kernel) → Stays (new_table pte k)
unfolding new_table
new_table-Stays pte k =
    Stays-bind _ (on_pmm-Stays alloc_page k (alloc_page-Stays k.pmm))
      λ pt s. Stays-if (pt == 0) _ _ s back (hang_table-Stays pte pt s)

next_table-Stays :
    (pt level va : ℕ) (alloc : Bool) (k : Kernel) → Stays (next_table pt level va alloc k)
unfolding next_table load
next_table-Stays pt level va alloc k =
    Stays-if (has_flag (k.mem (entry pt level va)) pte_v) _ _ k back
      (Stays-if alloc _ _ k (new_table-Stays (entry pt level va) k) back)

walk_down-Stays :
    (rounds level va : ℕ) (alloc : Bool) (pt : ℕ) (k : Kernel)
    → Stays (walk_down rounds level va alloc pt k)
unfolding walk_down
walk_down-Stays zero level va alloc pt k = back
walk_down-Stays (suc rounds) level va alloc pt k =
    Stays-bind _ (next_table-Stays pt level va alloc k)
      λ t s. Stays-some t _ _ back λ pt'. walk_down-Stays rounds (level - 1) va alloc pt' s

page_walk-Stays :
    (page_dir va level : ℕ) (alloc : Bool) (k : Kernel)
    → Stays (page_walk page_dir va level alloc k)
unfolding page_walk
page_walk-Stays page_dir va level alloc k =
    Stays-bind _ (Stays-ensure (ltb 0 va && ltb va max_va) panicked k)
      λ _ s. Stays-bind _ (walk_down-Stays (2 - level) 2 va alloc page_dir s) λ t u. back

map_page-Stays : (page_dir va pa perm : ℕ) (k : Kernel) → Stays (map_page page_dir va pa perm k)
unfolding map_page load store
map_page-Stays page_dir va pa perm k = Stays-bind _ (page_walk-Stays page_dir va 0 true k) λ pte s.
    Stays-if (pte == 0) _ _ s back
      (Stays-bind _ (Stays-ensure (not (has_flag (s.mem pte) pte_v)) panicked s) λ _ t. back)

map_loop-Stays :
    (fuel page_dir first stop_at pa perm : ℕ) (k : Kernel)
    → Stays (map_loop fuel page_dir first stop_at pa perm k)
unfolding map_loop
map_loop-Stays zero page_dir first stop_at pa perm k = ended
map_loop-Stays (suc fuel) page_dir first stop_at pa perm k =
    Stays-cases (leb first stop_at) _ _
      (Stays-bind _ (map_page-Stays page_dir first pa perm k)
        λ fine t. Stays-cases fine _ _ (map_loop-Stays fuel page_dir _ stop_at _ perm t) back)
      back

pub user_vm_map-Stays :
    (page_dir va size pa perm : ℕ) (k : Kernel) → Stays (user_vm_map page_dir va size pa perm k)
unfolding user_vm_map map_pages
user_vm_map-Stays page_dir va size pa perm k =
    Stays-bind _ (map_loop-Stays _ page_dir _ _ pa perm k) λ fine s. Stays-ensure fine panicked s
