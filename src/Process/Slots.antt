-- ===== src/Process/Slots.antt =====
-- The slots of the process pool: init_proc_pool and the search of alloc_process.
use pke.Base.{
  ℕ, zero, suc, ◌+◌, ◌<◌, ◌≤◌, ◌≡◌, refl, true, false, ltb, lt→ltb, arith, Bool-cases, inl, inr,
  ◌⊎◌, Option, none, some, Option-cases, halt, panicked, Returns, returns,
}
use pke.Kernel.{Process, Kernel, nproc}
use pke.Sched.Next.{Image}
use pke.Process.Pool.{init_proc_pool, is_free, find_free, init_process, alloc_process}

-- What the search of alloc_process finds: the first free slot, or that there is none.
abbrev pub Found : ℕ → ℕ → (ℕ → Process) → Option ℕ → Type 0
Found from end procs none = (j : ℕ) → from ≤ j → j < end → is_free (procs j).status ≡ false
Found from end procs (some i) =
    (from ≤ i)
    × (i < end)
    × (is_free (procs i).status ≡ true)
    × ((j : ℕ) → from ≤ j → j < i → is_free (procs j).status ≡ false)

Found-next :
    (i end : ℕ) (procs : ℕ → Process) (o : Option ℕ)
    → is_free (procs i).status ≡ false
    → Found (i + 1) end procs o
    → Found i end procs o
Found-next i end procs none taken f = λ j lo hi. elim (Bool-cases (ltb i j)) [
  | inl later ↦ f j (ground arith) hi
  | inr here ↦ (let e : j ≡ i = ground arith in rw e taken)
]
Found-next i end procs (some x) taken f = (
  omega (arith, f.0),
  f.1,
  f.2,
  λ j lo hi. elim (Bool-cases (ltb i j)) [
    | inl later ↦ f.3 j (ground arith) hi
    | inr here ↦ (let e : j ≡ i = ground arith in rw e taken)
  ],
)

find_free-Found :
    (rounds i : ℕ) (procs : ℕ → Process) → Found i (i + rounds) procs (find_free rounds i procs)
unfolding find_free
find_free-Found zero i procs = λ j lo hi. absurd (omega arith)
find_free-Found (suc rounds) i procs = elim (Bool-cases (is_free (procs i).status)) [
  | inl here ↦
      rw (find_free, here) (omega arith, omega arith, here, λ j lo hi. absurd (omega arith))
  | inr taken ↦
      let e : i + suc rounds ≡ i + 1 + rounds = omega arith in
      rw (find_free, taken, e)
        (Found-next i (i + 1 + rounds) procs (find_free rounds (i + 1) procs) taken
          (find_free-Found rounds (i + 1) procs))
]

-- alloc_process works on the first free slot of the pool; when no slot is free, it panics.
pub alloc_process-first :
    (im : Image) (k : Kernel)
    → ((i : ℕ) × (i < nproc)
        × (is_free (k.procs i).status ≡ true)
        × ((j : ℕ) → j < i → is_free (k.procs j).status ≡ false)
        × (alloc_process im k ≡ init_process im i k))
      ⊎ (((j : ℕ) → j < nproc → is_free (k.procs j).status ≡ false)
          × (alloc_process im k ≡ halt panicked))
unfolding alloc_process
alloc_process-first im k =
    let f = find_free-Found nproc 0 k.procs in
    elim (Option-cases (find_free nproc 0 k.procs)) [
      | inl full ↦
          (let g = rw full at f in
            inr (λ j hj. g j (omega arith) hj, rw (alloc_process, full) refl))
      | inr (i, e) ↦
          (let g = rw e at f in
            inl (i, g.1, g.2, λ j hj. g.3 j (omega arith) hj, rw (alloc_process, e) refl))
    ]

-- After init_proc_pool, every slot is free and carries its own number, and alloc_process takes slot
-- 0.
pub init_proc_pool-free :
    (im : Image) (k : Kernel)
    → Returns
        (λ _ t.
          ((i : ℕ) → i < nproc → (is_free (t.procs i).status ≡ true) × ((t.procs i).pid ≡ i))
          × (alloc_process im t ≡ init_process im 0 t))
        (init_proc_pool k)
unfolding init_proc_pool alloc_process find_free is_free
init_proc_pool-free im k = returns (λ i hi. (let e = lt→ltb i nproc hi in rw e (refl, refl)), refl)
