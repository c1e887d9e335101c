-- ===== src/System/Reachable.antt =====
-- The trap handler keeps the processes in order, and with it every run of the machine.
use pke.Base.{
  ℕ, ◌+◌, ◌≡◌, refl, sym, false, ◌==◌, ◌&&◌, ◌||◌, not, ltb, Option, none, some, arith, Cmd,
  to_user, Always, fine, away, stopped, Always-bind, Always-mono, Always-if, Always-ensure,
  Always-Partly-bind, Partly-any, Always-to_user, ◌>>◌, halt, panicked, bit_and,
}
use pke.Pmm.State.{page_size}
use pke.Pmm.Cache.{alloc_page, pfree}
use pke.Kernel.{Kernel, load, store}
use pke.Sched.Next.{Image, switch_to, sstatus_spp}
use pke.Vmm.Pte.{pte_v, pte_cow, has_flag, pte_to_pa}
use pke.Trap.Handler.{
  cause_user_ecall, cause_mtimer_s_trap, cause_store_page_fault, cause_load_page_fault, copy_page,
  unshare_page, store_fault, handle_user_page_fault, handle_mtimer_trap, dispatch,
  smode_trap_handler,
}
use pke.System.Still.{
  Still, Still-refl, Still-store, on_pmm-Still, copy_words-Still, page_walk-Still,
}
use pke.System.Calls.{deref-Still}
use pke.System.Orderly.{Forward, Orderly, Kept, Kept-trans, Still-Forward, Still-Kept, deref-bind}
use pke.System.Traps.{handle_syscall-Kept}
use pke.Trapframe

copy_page-Still :
    (k₀ : Kernel) (pte pa : ℕ) (k : Kernel) → Still k₀ k → Always (Still k₀) (copy_page pte pa k)
unfolding copy_page load
copy_page-Still k₀ pte pa k h = Always-bind (on_pmm-Still k₀ alloc_page k h) λ new_pa s hs.
    Always-bind (Always-ensure (not (new_pa == 0)) panicked s hs) λ _ t ht.
      Always-bind (copy_words-Still k₀ new_pa pa page_size t ht)
        λ _ u hu. Always-bind (Still-store k₀ pte _ u hu) λ _ v hv. on_pmm-Still k₀ (pfree pa) v hv

module _ (im : Image) (get_page : ℕ → Cmd Kernel (Unit {0})) (get_page_ref : ℕ → Kernel → ℕ) where
  fault-Still :
      (k₀ : Kernel) (mcause stval : ℕ) (k : Kernel)
      → Still k₀ k
      → Always (Still k₀) (handle_user_page_fault im get_page get_page_ref mcause stval k)
  unfolding handle_user_page_fault store_fault unshare_page load
  fault-Still k₀ mcause stval k h =
      Always-if (mcause == cause_store_page_fault) _ _ k
        (Always-bind (deref-Still k₀ k.current k h) λ c s hs.
          Always-bind (page_walk-Still k₀ (k.procs c).pagetable stval 0 false s hs) λ pte t ht.
            let w : ℕ = t.mem pte in
            Always-if (not (pte == 0) && has_flag w pte_v && has_flag w pte_cow) _ _ t
              (Always-if (ltb 1 (get_page_ref (pte_to_pa w) k)) _ _ t
                (copy_page-Still k₀ pte (pte_to_pa w) t ht) (Still-store k₀ pte _ t ht))
              stopped)
        (fine h)

  -- A run of the machine from the state `k`: whatever the user program does to memory and to the
  -- registers, then a trap that leads back to user mode.
  pub data Reachable (k : Kernel) : Kernel → Type 0 where
    here : Reachable k k
    trap :
        {t u v : Kernel}
        → Reachable k t
        → Still t u
        → smode_trap_handler im get_page get_page_ref u ≡ to_user v
        → Reachable k v

  -- get_page, which the sources do not define, leaves the processes and their queue alone.
  module _
      (counts : (k₀ : Kernel) (pa : ℕ) (k : Kernel)
        → Still k₀ k
        → Always (Still k₀) (get_page pa k)) where
    dispatch-Kept :
        (tf cause : ℕ) (k : Kernel)
        → Orderly k
        → Always (Kept k) (dispatch im get_page get_page_ref tf cause k)
    unfolding dispatch handle_mtimer_trap
    dispatch-Kept tf cause k o =
        Always-if (cause == cause_user_ecall) _ _ k
          (handle_syscall-Kept im get_page counts get_page_ref tf k o)
          (Always-if (cause == cause_mtimer_s_trap) _ _ k stopped (
            Always-if (cause == cause_store_page_fault || cause == cause_load_page_fault) _ _ k
              (Always-mono (fault-Still k cause k.stval k (Still-refl k)) λ t h. Still-Kept o h)
              stopped))

    -- switch_to leaves for the process that it is given.
    switch_to-Still :
        (c : ℕ) (k : Kernel) → k.current ≡ some c → Always (Still k) (switch_to im c k)
    unfolding switch_to load store
    switch_to-Still c k e =
        away (record { head = refl; current = sym e; status = λ p. refl; link = λ p. refl })

    -- `assert(current)`, and then the trap itself.
    enter-Kept :
        (o : Option ℕ) (k : Kernel)
        → Orderly k
        → Always (Kept k) (elim o [
          | none ↦ halt panicked
          | some c ↦
              (store ((k.procs c).trapframe + Trapframe.epc) k.sepc
                  >> dispatch im get_page get_page_ref (k.procs c).trapframe k.scause)
                k
        ])
    enter-Kept none k h = stopped
    enter-Kept (some c) k h =
        Always-Partly-bind
          (Still-store k ((k.procs c).trapframe + Trapframe.epc) k.sepc k (Still-refl k))
          (Partly-any (store ((k.procs c).trapframe + Trapframe.epc) k.sepc k))
          (λ s hs. Still-Kept h hs)
          λ _ s hs _.
            Always-mono (dispatch-Kept (k.procs c).trapframe k.scause s (Still-Kept h hs).orderly)
              λ t kept. Kept-trans (Still-Forward hs) kept

    smode_trap_handler-Kept :
        (k : Kernel) → Orderly k → Always (Kept k) (smode_trap_handler im get_page get_page_ref k)
    unfolding smode_trap_handler
    smode_trap_handler-Kept k o =
        Always-bind
          (Always-ensure (bit_and k.sstatus sstatus_spp == 0) panicked k
            (Still-Kept o (Still-refl k)))
          λ _ s hs.
            Always-bind
              (Always-mono (enter-Kept s.current s hs.orderly) λ t kept. Kept-trans hs.forward kept)
              λ _ t kept. deref-bind t.current t _ λ c e.
                Always-mono (switch_to-Still c t e)
                  λ u hu. Kept-trans kept.forward (Still-Kept kept.orderly hu)

    -- Wherever a run of the machine reaches user mode from a state with its processes in order,
    -- whatever the user programs do, when get_page leaves the processes alone: the ready queue
    -- holds READY processes of the pool, each once, the running process is RUNNING, and since the
    -- start no process has gone back in the order FREE, READY, RUNNING, BLOCKED, ZOMBIE.
    pub Reachable-Orderly : {k t : Kernel} → Orderly k → Reachable k t → Orderly t × Forward k t
    Reachable-Orderly o here = (o, λ p. omega arith)
    Reachable-Orderly o (trap before user back) =
        let (o', f) = Reachable-Orderly o before in
        let kept = Still-Kept o' user in
        let after = Always-to_user (smode_trap_handler-Kept _ kept.orderly) back in
        (after.orderly, λ p. omega (arith, f p, kept.forward p, after.forward p))
