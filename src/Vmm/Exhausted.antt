-- ===== src/Vmm/Exhausted.antt =====
-- kern_vm_init needs more tables than the cache has pages.
use pke.Base.{
  ℕ, zero, suc, ◌+◌, ◌-◌, ◌*◌, ◌/◌, ◌%◌, ◌^◌, ◌<◌, ◌≤◌, ◌≡◌, ◌≢◌, ◌⊎◌, inl, inr, refl, sym, Bool,
  true, false, ◌==◌, ltb, leb, ◌&&◌, List, length, get_elem?, has, Distinct, some, arith, Partly,
  partly, gone, Partly-bind, Partly-mono, Partly-NoReturn, NoReturn, halted, Bool-cases, bit_or,
  ensure, panicked, if◌then◌else◌,
}
use pke.Pmm.State.{page_size, dram_base, pcpu_cache_size}
use pke.Pmm.Init.{round_down}
use pke.Pmm.Start.{round_down-page}
use pke.Pmm.Budget.{get_elem?-has, Distinct-index, below-some}
use pke.Kernel.{Kernel, zero_words, load}
use pke.Vmm.Pte.{pte_v, has_flag, pte_to_pa, max_va, prot_to_type, prot_read, prot_write, prot_exec}
use pke.Vmm.Walk.{entry, next_table, walk_down, page_walk}
use pke.Vmm.Maps.{map_loop, map_pages, kern_vm_map, lookup_pa}
use pke.Vmm.KernelMap.{kern_vm_init, kern_base, phys_top}
use pke.Vmm.Supply.{Cached, page, hung, drawn, alloc_page-drawn, next_table-hung}
use pke.Vmm.Tables.{InRegion, Mapping, px-top, descend, map_page-Reached, hung-entry}
use pke.Vmm.Loop.{map_loop-go_on, go_on-Done, map_loop-Done, Done, Pages}

-- A walk that may not allocate changes nothing.
walk_down-same :
    (rounds level va pt : ℕ) (k : Kernel)
    → Partly (λ t u. u ≡ k) (walk_down rounds level va false pt k)
unfolding walk_down next_table load
walk_down-same zero level va pt k = partly refl
walk_down-same (suc rounds) level va pt k =
    elim (Bool-cases (has_flag (k.mem (entry pt level va)) pte_v)) [
      | inl there ↦
          rw (walk_down, there)
            (walk_down-same rounds (level - 1) va (pte_to_pa (k.mem (entry pt level va))) k)
      | inr missing ↦ rw (walk_down, missing) (partly refl)
    ]

page_walk-same : (va pt : ℕ) (k : Kernel) → Partly (λ t u. u ≡ k) (page_walk pt va 0 false k)
unfolding page_walk
page_walk-same va pt k = elim (Bool-cases (ltb 0 va && ltb va max_va)) [
  | inl fine ↦ rw fine (Partly-bind (walk_down-same 2 2 va pt k) λ t u same. partly same)
  | inr out ↦ rw out (gone halted)
]

lookup_pa-same : (va pt : ℕ) (k : Kernel) → Partly (λ t u. u ≡ k) (lookup_pa pt va k)
unfolding lookup_pa load
lookup_pa-same va pt k = elim (Bool-cases (leb max_va va)) [
  | inl out ↦ rw out (partly refl)
  | inr fine ↦ rw fine (Partly-bind (page_walk-same va pt k) λ t u same. partly same)
]

-- `if (map_pages(...) != 0) panic(...)`
ensure_fine :
    {P : Kernel → Type 0} (fine : Bool) (t : Kernel)
    → (fine ≡ true → P t)
    → Partly (λ _ u. P u) (ensure fine panicked t)
ensure_fine true t p = partly (p refl)
ensure_fine false t p = gone halted

-- The page behind the text is in the region of the last page of the text or in the next.
region_behind :
    (r etext : ℕ)
    → InRegion r ((etext - 1) / page_size * page_size)
    → dram_base < etext
    → etext < phys_top
    → InRegion r (etext / page_size * page_size) ⊎ InRegion (suc r) (etext / page_size * page_size)
region_behind r etext (e, h) lo hi =
    elim (Bool-cases (leb (1024 + suc r) (etext / page_size * page_size / 2 ^ 21))) [
      | inl up ↦
          let up' : 1024 + suc r ≤ etext / page_size * page_size / 2 ^ 21 = ground arith in
          inr (omega (arith, e), omega (arith, hi))
      | inr same ↦
          let low : etext / page_size * page_size / 2 ^ 21 < 1024 + suc r = ground arith in
          inl (omega (arith, e), h)
    ]

module _ (xs : List ℕ) (size : length xs ≡ pcpu_cache_size) (distinct : Distinct xs)
    (small : (q : ℕ) → has q xs ≡ true → q < 2 ^ 43) where
  last_page : (p : ℕ) × (get_elem? xs 31 ≡ some p)
  last_page = below-some xs 31 (omega (arith, size))

  next_page : (p : ℕ) × (get_elem? xs 30 ≡ some p)
  next_page = below-some xs 30 (omega (arith, size))

  abbrev dir : ℕ
  dir = page xs (last_page.0)

  abbrev medium : ℕ
  medium = page xs (next_page.0)

  bound : (i p : ℕ) → get_elem? xs i ≡ some p → p < 2 ^ 43
  bound i p obj = small p (get_elem?-has xs i p obj)

  other_page :
      (i j p q : ℕ)
      → i < j
      → get_elem? xs i ≡ some p
      → get_elem? xs j ≡ some q
      → page xs p ≢ page xs q
  other_page i j p q lt hp hq e =
      let e' : p ≡ q = omega (arith, e) in
      absurd (omega (arith, lt, Distinct-index xs i j q distinct (rw e' at hp) hq))

  -- The state after the table of the second level is there.
  start :
      (k : Kernel)
      → Cached xs 31 k
      → Mapping xs small dir medium 0 0 30 (hung xs (dir + 16) (next_page.0) 30 k)
  start k cached =
      let b = bound 31 (last_page.0) (last_page.1) in
      let b' = bound 30 (next_page.0) (next_page.1) in
      let ne : dir ≢ medium = λ e.
        other_page 30 31 (next_page.0) (last_page.0) (omega arith) (next_page.1) (last_page.1)
          (sym e) in
      record {
        cached = record { hart = cached.hart; count = refl; objs = cached.objs };
        room = omega (arith, size);
        budget = refl;
        top =
            hung-entry xs small dir medium (next_page.0) 30 dir 16 k (omega arith) (omega arith) ne;
        low = λ i e. cc;
        rest = λ j le lt.
            let inside : (leb medium (medium + j * 8) && ltb (medium + j * 8) (medium + page_size))
                ≡ true =
              ground arith in
            rw inside refl;
        dir_page = (omega arith, omega (arith, b));
        medium_page = (omega arith, omega (arith, b'));
        leaves_page = λ pos. absurd (omega arith);
        apart = ne;
        leaves_apart = λ pos. absurd (omega arith);
        unused = λ i p lt obj. (
          other_page i 31 p (last_page.0) (omega (arith, lt)) obj (last_page.1),
          other_page i 30 p (next_page.0) lt obj (next_page.1),
        );
      }

  -- The loop from the start of memory, on a page directory without entries.
  first_loop :
      (fuel stop_at pa perm : ℕ) (k : Kernel)
      → Cached xs 31 k
      → k.mem (dir + 16) ≡ 0
      → Pages xs small dir medium dram_base stop_at
      → Partly
          (λ fine t. fine ≡ true → Done xs small dir medium stop_at t)
          (map_loop (suc fuel) dir dram_base stop_at pa perm k)
  first_loop fuel stop_at pa perm k cached empty pages =
      let more : leb dram_base stop_at ≡ true = (let le = pages.2 in ground arith) in
      let h : InRegion 0 dram_base = (refl, omega arith) in
      let word : k.mem (entry dir 2 dram_base) ≡ 0 = rw (px-top 0 dram_base h) empty in
      let top =
        next_table-hung xs dir 2 dram_base k 30 (next_page.0) word cached (omega arith)
          (next_page.1) (omega (arith, bound 30 (next_page.0) (next_page.1))) in
      let top' = rw (px-top 0 dram_base h) at top in
      rw (map_loop-go_on fuel dir dram_base stop_at pa perm k more) (
        Partly-bind
          (map_page-Reached xs small dir medium 0 dram_base pa perm k _ h top'
            (descend xs small dir medium 0 0 30 0 dram_base _ (start k cached) h (inr refl)))
          λ fine t reached.
            go_on-Done xs small dir medium fuel dram_base stop_at pa perm 0 fine t
              (map_loop-Done xs small dir medium fuel) reached h pages)

  -- The first map of kern_vm_init, of the text.
  text_map :
      (etext perm : ℕ) (k : Kernel)
      → Cached xs 31 k
      → k.mem (dir + 16) ≡ 0
      → dram_base < etext
      → etext < phys_top
      → Partly
          (λ _ t. Done xs small dir medium ((etext - 1) / page_size * page_size) t)
          (kern_vm_map dir dram_base dram_base (etext - kern_base) perm k)
  unfolding kern_vm_map map_pages
  text_map etext perm k cached empty lo hi =
      let stop_at : ℕ = (etext - 1) / page_size * page_size in
      let e1 : round_down dram_base page_size ≡ dram_base =
        round_down-page dram_base (omega arith) in
      let e2 : (dram_base + (etext - kern_base) + 2 ^ 64 - 1) % 2 ^ 64 ≡ etext - 1 =
        omega (arith, lo, hi) in
      let e3 : round_down (etext - 1) page_size ≡ stop_at =
        round_down-page (etext - 1) (omega (arith, hi)) in
      rw (e1, e2, e3)
        (Partly-bind
          (first_loop (suc ((stop_at - dram_base) / page_size)) stop_at dram_base perm k cached
            empty (refl, omega arith, omega (arith, lo), omega (arith, hi)))
          ensure_fine)

  -- The second map, of the rest of memory, needs more tables than there are pages.
  data_map :
      (etext perm : ℕ) (k : Kernel)
      → Done xs small dir medium ((etext - 1) / page_size * page_size) k
      → dram_base < etext
      → etext < phys_top
      → Partly (λ _ t. ⊥) (kern_vm_map dir etext etext (phys_top - etext) perm k)
  unfolding kern_vm_map map_pages
  data_map etext perm k (r, a, h, last_table) lo hi =
      let (c, m) = last_table in
      let first : ℕ = etext / page_size * page_size in
      let stop_at : ℕ = phys_top - page_size in
      let e1 : round_down etext page_size ≡ first = round_down-page etext (omega (arith, hi)) in
      let e2 : (etext + (phys_top - etext) + 2 ^ 64 - 1) % 2 ^ 64 ≡ phys_top - 1 =
        omega (arith, hi) in
      let e3 : round_down (phys_top - 1) page_size ≡ stop_at =
        round_down-page (phys_top - 1) (omega arith) in
      let fuel : ℕ = suc (suc ((stop_at - first) / page_size)) in
      let pages : Pages xs small dir medium first stop_at =
        (omega arith, omega arith, omega (arith, hi), omega arith) in
      let run : Partly (λ fine t. fine ≡ true → Done xs small dir medium stop_at t)
          (map_loop fuel dir first stop_at etext perm k) =
        elim (region_behind r etext h lo hi) [
          | inl same ↦
              map_loop-Done xs small dir medium fuel first stop_at etext perm a (suc r) c r k m same
                (inl refl) pages
          | inr next ↦
              map_loop-Done xs small dir medium fuel first stop_at etext perm a (suc r) c (suc r) k
                m next (inr refl) pages
        ] in
      rw (e1, e2, e3)
        (Partly-bind run λ fine t done.
          Partly-mono (ensure_fine {P = Done xs small dir medium stop_at} fine t done)
            λ _ u (r', a', h', last_table').
              (let b = last_table'.1.budget in omega (arith, b, h'.0)))

  prepared :
      (k : Kernel)
      → Cached xs 32 k
      → Cached xs 31 (record (drawn xs 31 k) {
        mem = λ b. if leb dir b && ltb b (dir + page_size) then 0 else k.mem b;
      })
  prepared k cached = record { hart = cached.hart; count = refl; objs = cached.objs }

  -- kern_vm_init on hart 0 with 32 distinct pages below 2 ^ 43 in the cache, when the text ends
  -- between the start and the end of memory, never returns: it panics or waits for ever.
  pub kern_vm_init-NoReturn :
      (etext : ℕ) (k : Kernel)
      → Cached xs 32 k
      → dram_base < etext
      → etext < phys_top
      → NoReturn (kern_vm_init etext k)
  unfolding kern_vm_init zero_words
  kern_vm_init-NoReturn etext k cached lo hi =
      let run =
        alloc_page-drawn xs 31 (last_page.0) k cached (omega arith) (last_page.1)
          (omega (arith, bound 31 (last_page.0) (last_page.1))) in
      let not_null : (dir == 0) ≡ false = ground arith in
      Partly-NoReturn (
        rw (run, not_null)
          (Partly-bind
            (text_map etext (prot_to_type (bit_or prot_read prot_exec) false) _ (prepared k cached)
              (ground arith) lo hi)
            λ _ t done. Partly-bind (lookup_pa-same kern_base dir t) λ pa u same.
              Partly-bind
                (data_map etext (prot_to_type (bit_or prot_read prot_write) false) u (rw same done)
                  lo hi)
                λ _ v no. absurd no))
