-- ===== src/Process/Forked.antt =====
-- The end of do_fork of kernel/process.c: the child goes into the ready queue.
use pke.Base.{
  Cmd, ℕ, ◌+◌, ◌*◌, ◌%◌, ◌^◌, ◌≡◌, ◌≢◌, ◌≤◌, refl, ap, ◌∙◌, false, List, [], ◌∷◌, ◌++◌, has, length,
  some, arith, Returns, returns, Returns-bind, Returns-Partly,
}
use pke.Kernel.{ProcStatus, Kernel, nproc, write_proc, write_mem, store}
use pke.Sched.Next.{Image}
use pke.Process.Fork.{finish_fork}
use pke.Sched.Enqueue.{Keeps, insert_to_ready_queue-Keeps}
use pke.Sched.Queue.{
  insert_to_ready_queue, IsQueue, Linked-same, enqueue, insert_to_ready_queue-IsQueue,
}
use pke.Trapframe

-- The child as it is when it goes into the queue.
abbrev made_child : Image → ℕ → ℕ → Kernel → Kernel
made_child im parent child k =
    let frame = (k.procs child).trapframe in
    let k₁ = write_proc child (record (k.procs child) { status = ProcStatus.ready }) k in
    let k₂ = write_proc child (record (k₁.procs child) { parent = some parent }) k₁ in
    write_mem (frame + Trapframe.a 0) 0
      (write_mem (frame + Trapframe.tp) ((im.procs_addr + child * im.process_size) % 2 ^ 64) k₂)

made_child-IsQueue :
    (im : Image) (parent child : ℕ) (k : Kernel) (xs : List ℕ)
    → IsQueue k xs
    → IsQueue (made_child im parent child k) xs
made_child-IsQueue im parent child k xs q = record {
  linked =
      Linked-same k.procs (made_child im parent child k).procs (λ p. ground arith)
        k.ready_queue_head xs q.linked;
  distinct = q.distinct;
  within = q.within;
  all_ready = λ p h. ground (arith, q.all_ready p h);
}

-- The last step of do_fork, with the ready queue in order and room in it for the child, which is
-- not in it yet: the child goes to the end of the queue as READY, its parent is the process that
-- forks, its saved a0 is 0 and its saved tp is its own process pointer; no other word of memory and
-- no other process's state changes, the same process is running, and the result is the number of
-- the child.
pub finish_fork-Queued :
    (im : Image) (get_page : ℕ → Cmd Kernel (Unit {0})) (parent child : ℕ) (k : Kernel)
    (xs : List ℕ)
    → IsQueue k xs
    → has child xs ≡ false
    → length (xs ++ (child ∷ [])) ≤ nproc
    → Returns
        (λ pid t.
          (pid ≡ (k.procs child).pid)
          × IsQueue t (xs ++ (child ∷ []))
          × ((t.procs child).parent ≡ some parent)
          × (t.mem ((k.procs child).trapframe + Trapframe.a 0) ≡ 0)
          × (t.mem ((k.procs child).trapframe + Trapframe.tp)
              ≡ (im.procs_addr + child * im.process_size) % 2 ^ 64)
          × ((a : ℕ)
              → a ≢ (k.procs child).trapframe + Trapframe.a 0
              → a ≢ (k.procs child).trapframe + Trapframe.tp
              → t.mem a ≡ k.mem a)
          × (t.current ≡ k.current)
          × ((p : ℕ) → p ≢ child → (t.procs p).status ≡ (k.procs p).status))
        (finish_fork im get_page parent child k)
unfolding finish_fork store
finish_fork-Queued im get_page parent child k xs q out room =
    let m : Kernel = made_child im parent child k in
    let run : Returns (λ _ t. IsQueue t (enqueue child xs) × Keeps child m t)
        (insert_to_ready_queue child m) =
      Returns-Partly
        (insert_to_ready_queue-IsQueue m xs child (made_child-IsQueue im parent child k xs q)
          (rw out room))
        (insert_to_ready_queue-Keeps child m m.ready_queue_head refl) in
    Returns-bind run (λ _ t both. returns (
      both.1.pid child ∙ ground arith,
      rw out at both.0,
      both.1.parent child ∙ ground arith,
      ap (λ (f : ℕ → ℕ). f ((k.procs child).trapframe + Trapframe.a 0)) both.1.mem ∙ ground arith,
      ap (λ (f : ℕ → ℕ). f ((k.procs child).trapframe + Trapframe.tp)) both.1.mem ∙ ground arith,
      λ a off off'. ap (λ (f : ℕ → ℕ). f a) both.1.mem ∙ ground arith,
      both.1.current,
      λ p ne. both.1.others p ne ∙ ground arith,
    ))
