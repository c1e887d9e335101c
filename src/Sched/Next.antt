-- ===== src/Sched/Next.antt =====
-- schedule of kernel/sched.c and switch_to of kernel/process.c.
use pke.Base.{
  ℕ, zero, suc, ◌+◌, ◌-◌, ◌^◌, ◌<◌, ◌≡◌, ◌≢◌, refl, ◌↔◌, ◌⊎◌, Bool-cases, inl, inr, ==_iff, Leaves,
  leaves, true, false, Bool, bit_and, bit_or, Cmd, halt, panicked, shut_down, to_user, get, modify,
  ensure, ◌>>=◌, ◌>>◌, ◌==◌, ==_refl, if◌then◌else◌, List, [], ◌∷◌, ne_of_has, none, some, ◌||◌,
  arith,
}
use pke.Kernel.{Process, ProcStatus, Kernel, nproc, write_proc, load, store}
use pke.Sched.Queue.{IsQueue, Linked-same}
use pke.Trapframe

-- Addresses that the linker chooses.
pub record Image : Type 0 where
  pub smode_trap_vector : ℕ
  pub smode_trap_handler : ℕ
  pub trap_sec_start : ℕ
  pub etext : ℕ
  -- `procs` and `sizeof(process)`
  pub procs_addr : ℕ
  pub process_size : ℕ

-- SSTATUS_SPP and SSTATUS_SPIE.
abbrev pub sstatus_spp : ℕ
sstatus_spp = 2 ^ 8

abbrev pub sstatus_spie : ℕ
sstatus_spie = 2 ^ 5

-- `x & ~SSTATUS_SPP | SSTATUS_SPIE`
unfoldable pub user_sstatus : ℕ → ℕ
user_sstatus x = bit_or (bit_and x (2 ^ 64 - 1 - sstatus_spp)) sstatus_spie

-- return_to_user gets the page table as an argument: the switch of satp is its work.
unfoldable pub switch_to : Image → ℕ → Cmd Kernel (Unit {0})
switch_to im proc = do
  modify (λ k. record k { current = some proc })
  modify (λ k. record k { stvec = im.smode_trap_vector })
  k ← get
  let p = k.procs proc
  store (p.trapframe + Trapframe.kernel_sp) p.kstack
  store (p.trapframe + Trapframe.kernel_satp) k.satp
  store (p.trapframe + Trapframe.kernel_trap) im.smode_trap_handler
  modify (λ k. record k { sstatus = user_sstatus k.sstatus })
  epc ← load (p.trapframe + Trapframe.epc)
  modify (λ k. record k { sepc = epc })
  to_user

-- Whether one of the processes below `n` is neither FREE nor ZOMBIE.
unfoldable pub is_unfinished : ProcStatus → Bool
is_unfinished ProcStatus.free = false
is_unfinished ProcStatus.zombie = false
is_unfinished ProcStatus.ready = true
is_unfinished ProcStatus.running = true
is_unfinished ProcStatus.blocked = true

unfoldable pub any_unfinished : ℕ → (ℕ → Process) → Bool
any_unfinished zero procs = false
any_unfinished (suc n) procs = is_unfinished (procs n).status || any_unfinished n procs

unfoldable pub is_ready : ProcStatus → Bool
is_ready ProcStatus.ready = true
is_ready ProcStatus.free = false
is_ready ProcStatus.running = false
is_ready ProcStatus.blocked = false
is_ready ProcStatus.zombie = false

unfoldable pub run_head : Image → ℕ → Cmd Kernel (Unit {0})
run_head im h = do
  modify (λ k. record k { current = some h })
  k ← get
  ensure (is_ready (k.procs h).status) panicked
  modify (λ k. record k { ready_queue_head = (k.procs h).queue_next })
  modify (λ k. write_proc h (record (k.procs h) { status = ProcStatus.running }) k)
  switch_to im h

-- Nothing is ready.
unfoldable pub nothing_ready : Cmd Kernel (Unit {0})
nothing_ready k = if any_unfinished nproc k.procs then halt panicked else halt shut_down

unfoldable pub schedule : Image → Cmd Kernel (Unit {0})
schedule im k = elim k.ready_queue_head [ none ↦ nothing_ready k | some h ↦ run_head im h k ]

-- Process `x` runs in user mode, from its saved program counter, and `xs` waits.
pub record Runs (im : Image) (k : Kernel) (x : ℕ) (xs : List ℕ) (t : Kernel) : Type 0 where
  pub queue : IsQueue t xs
  pub current : t.current ≡ some x
  pub running : (t.procs x).status ≡ ProcStatus.running
  pub pc : t.sepc ≡ k.mem ((k.procs x).trapframe + Trapframe.epc)
  pub vector : t.stvec ≡ im.smode_trap_vector
  pub stack : t.mem ((k.procs x).trapframe + Trapframe.kernel_sp) ≡ (k.procs x).kstack
  pub others : (p : ℕ) → p ≢ x → t.procs p ≡ k.procs p

-- schedule runs the process at the head of the ready queue, at its saved program counter and with
-- its kernel stack set up for the next trap; the rest of the queue keeps its order.
pub schedule-Runs :
    (im : Image) (k : Kernel) (x : ℕ) (xs : List ℕ)
    → IsQueue k (x ∷ xs)
    → Leaves (λ t. Runs im k x xs t) (schedule im k)
unfolding schedule run_head switch_to is_ready load store
schedule-Runs im k x xs q =
    let r : (k.procs x).status ≡ ProcStatus.ready = q.all_ready x (rw (==_refl x) refl) in
    rw (q.linked.0, schedule, r)
      (leaves (record {
        queue = record {
          linked =
              Linked-same k.procs
                (write_proc x (record (k.procs x) { status = ProcStatus.running }) k).procs
                (λ p. ground arith) (k.procs x).queue_next xs q.linked.1;
          distinct = q.distinct.1;
          within = omega (arith, q.within);
          all_ready = λ p h.
              let ne : p ≢ x = ne_of_has p x xs h q.distinct.0 in ground (arith, q.all_ready p);
        };
        current = refl;
        running = ground arith;
        pc = ground arith;
        vector = refl;
        stack = ground arith;
        others = λ p ne. ground arith;
      }))

any_unfinished_iff :
    (n : ℕ) (procs : ℕ → Process)
    → (any_unfinished n procs ≡ false) ↔ ((p : ℕ) → p < n → is_unfinished (procs p).status ≡ false)
unfolding any_unfinished
any_unfinished_iff zero procs = (λ e p h. absurd (omega arith), λ f. refl)
any_unfinished_iff (suc n) procs =
    let ih = any_unfinished_iff n procs in
    (
      λ e p h. elim (Bool-cases (p == n)) [
        | inl here ↦ rw ((==_iff p n).0 here) (ground arith)
        | inr differ ↦ ih.0 (ground arith) p (ground arith)
      ],
      λ f. rw (f n (omega arith)) (ih.1 (λ p h. f p (omega arith))),
    )

-- A slot of the pool without a living process.
abbrev pub Finished : ProcStatus → Type 0
Finished status = (status ≡ ProcStatus.free) ⊎ (status ≡ ProcStatus.zombie)

is_unfinished_iff : (status : ProcStatus) → (is_unfinished status ≡ false) ↔ Finished status
unfolding is_unfinished
is_unfinished_iff ProcStatus.free = (λ e. inl refl, λ f. refl)
is_unfinished_iff ProcStatus.zombie = (λ e. inr refl, λ f. refl)
is_unfinished_iff ProcStatus.ready = (λ e. cc, λ f. elim f [ inl e ↦ cc | inr e ↦ cc ])
is_unfinished_iff ProcStatus.running = (λ e. cc, λ f. elim f [ inl e ↦ cc | inr e ↦ cc ])
is_unfinished_iff ProcStatus.blocked = (λ e. cc, λ f. elim f [ inl e ↦ cc | inr e ↦ cc ])

-- When nothing is ready, schedule switches the machine off exactly when every process of the pool
-- is FREE or ZOMBIE; when one is neither, it panics.
pub schedule-shut_down :
    (im : Image) (k : Kernel)
    → IsQueue k []
    → ((schedule im k ≡ halt shut_down) ↔ ((p : ℕ) → p < nproc → Finished (k.procs p).status))
      × ((p : ℕ) → p < nproc → ¬ Finished (k.procs p).status → schedule im k ≡ halt panicked)
unfolding schedule nothing_ready
schedule-shut_down im k q =
    let it = any_unfinished_iff nproc k.procs in
    let fin = λ (p : ℕ). is_unfinished_iff (k.procs p).status in
    let e = q.linked in
    elim (Bool-cases (any_unfinished nproc k.procs)) [
      | inl some_left ↦
          rw (e, schedule, some_left)
            ((λ c. cc, λ f. cc (it.1 (λ p h. (fin p).1 (f p h)))), λ p h u. refl)
      | inr all_done ↦
          rw (e, schedule, all_done)
            (
              (λ c p h. (fin p).0 (it.0 all_done p h), λ f. refl),
              λ p h u. absurd (u ((fin p).0 (it.0 all_done p h))),
            )
    ]
