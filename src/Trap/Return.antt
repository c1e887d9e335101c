-- ===== src/Trap/Return.antt =====
-- A system call from the trap to the way back to user mode: smode_trap_handler as a whole.
use pke.Base.{
  ℕ, ◌+◌, ◌%◌, ◌^◌, ◌≡◌, refl, arith, bit_and, some, false, ==_refl, ok, Cmd, Leaves, leaves, ◌==◌,
}
use pke.Kernel.{Kernel, deref, load, store, write_mem}
use pke.Sched.Next.{Image, switch_to, sstatus_spp}
use pke.Trap.Syscall.{do_syscall}
use pke.Trap.Handler.{cause_user_ecall, handle_syscall, dispatch, smode_trap_handler}
use pke.Trapframe

module _ (im : Image) (get_page : ℕ → Cmd Kernel (Unit {0})) (get_page_ref : ℕ → Kernel → ℕ)
    (k : Kernel) (c : ℕ) where
  abbrev tf : ℕ
  tf = (k.procs c).trapframe

  -- The state in which the call runs: the saved program counter is behind the `ecall`.
  abbrev pub entered : Kernel
  entered =
      write_mem (tf + Trapframe.epc) ((k.sepc + 4) % 2 ^ 64)
        (write_mem (tf + Trapframe.epc) k.sepc k)

  handle_syscall-runs :
      (r : ℕ) (u : Kernel)
      → do_syscall im get_page (k.mem (tf + Trapframe.a 0)) (k.mem (tf + Trapframe.a 1)) entered
        ≡ ok r u
      → handle_syscall im get_page get_page_ref tf (write_mem (tf + Trapframe.epc) k.sepc k)
        ≡ ok tt (write_mem (tf + Trapframe.a 0) r u)
  unfolding handle_syscall load store
  handle_syscall-runs r u call =
      let a0 : (tf + 72 == tf + 264) ≡ false = ground arith in
      let a1 : (tf + 80 == tf + 264) ≡ false = ground arith in
      rw (==_refl (tf + 264), a0, a1, call) refl

  dispatch-runs :
      (r cause : ℕ) (u : Kernel)
      → cause ≡ cause_user_ecall
      → do_syscall im get_page (k.mem (tf + Trapframe.a 0)) (k.mem (tf + Trapframe.a 1)) entered
        ≡ ok r u
      → dispatch im get_page get_page_ref tf cause (write_mem (tf + Trapframe.epc) k.sepc k)
        ≡ ok tt (write_mem (tf + Trapframe.a 0) r u)
  unfolding dispatch
  dispatch-runs r cause u e call = rw (e, handle_syscall-runs r u call) refl

  switch_to-Leaves :
      (r : ℕ) (u : Kernel)
      → u.procs ≡ k.procs
      → Leaves
          (λ t.
            (t.current ≡ some c)
            × (t.sepc ≡ u.mem (tf + Trapframe.epc))
            × (t.mem (tf + Trapframe.a 0) ≡ r)
            × (t.stvec ≡ im.smode_trap_vector)
            × (t.mem (tf + Trapframe.kernel_sp) ≡ (k.procs c).kstack))
          (switch_to im c (write_mem (tf + Trapframe.a 0) r u))
  unfolding switch_to load store
  switch_to-Leaves r u same =
      rw same (leaves (refl, ground arith, ground arith, refl, ground arith))

  -- A trap from user mode with the cause of a system call, when the call returns `r` in a state
  -- that has the running process, the processes and the saved program counter as it found them:
  -- the trap handler leaves for user mode in the same process, behind the instruction that
  -- trapped, with `r` in a0, the interrupt vector set and the kernel stack ready for the next trap.
  pub smode_trap_handler-Leaves :
      (r : ℕ) (u : Kernel)
      → k.current ≡ some c
      → bit_and k.sstatus sstatus_spp ≡ 0
      → k.scause ≡ cause_user_ecall
      → do_syscall im get_page (k.mem (tf + Trapframe.a 0)) (k.mem (tf + Trapframe.a 1)) entered
        ≡ ok r u
      → u.current ≡ some c
      → u.procs ≡ k.procs
      → u.mem (tf + Trapframe.epc) ≡ (k.sepc + 4) % 2 ^ 64
      → Leaves
          (λ t.
            (t.current ≡ some c)
            × (t.sepc ≡ (k.sepc + 4) % 2 ^ 64)
            × (t.mem (tf + Trapframe.a 0) ≡ r)
            × (t.stvec ≡ im.smode_trap_vector)
            × (t.mem (tf + Trapframe.kernel_sp) ≡ (k.procs c).kstack))
          (smode_trap_handler im get_page get_page_ref k)
  unfolding smode_trap_handler store deref switch_to
  smode_trap_handler-Leaves r u running user cause call running' same pc =
      rw (user, running, dispatch-runs r k.scause u cause call, running')
        (rw pc at (switch_to-Leaves r u same))
