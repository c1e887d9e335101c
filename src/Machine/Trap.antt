-- ===== src/Machine/Trap.antt =====
-- Traps into machine mode: kernel/machine/mtrap.c.
use pke.Base.{
  arith, ◌+◌, ◌%◌, ◌^◌, ◌≡◌, Cmd, ok, halt, panicked, stop, get, modify, ◌>>=◌, ◌>>◌, ◌==◌,
  if◌then◌else◌,
}
use pke.Machine.Csr.{
  Machine, cause_mtimer, cause_fetch_access, cause_load_access, cause_store_access,
  cause_illegal_instruction, cause_misaligned_load, cause_misaligned_store, timer_interval,
  sip_ssip, write_mtimecmp,
}

unfoldable pub handle_instruction_access_fault : Cmd Machine (Unit {0})
handle_instruction_access_fault = stop panicked

unfoldable pub handle_load_access_fault : Cmd Machine (Unit {0})
handle_load_access_fault = stop panicked

unfoldable pub handle_store_access_fault : Cmd Machine (Unit {0})
handle_store_access_fault = stop panicked

unfoldable pub handle_misaligned_load : Cmd Machine (Unit {0})
handle_misaligned_load = stop panicked

unfoldable pub handle_misaligned_store : Cmd Machine (Unit {0})
handle_misaligned_store = stop panicked

-- The next interrupt is an interval after this one; hart 0 gets a software interrupt.
unfoldable pub handle_timer : Cmd Machine (Unit {0})
handle_timer = do
  modify (λ m. write_mtimecmp 0 ((m.mtimecmp 0 + timer_interval) % 2 ^ 64) m)
  modify (λ m. record m { sip = sip_ssip })

-- The case of a load access fault has no `break`.
unfoldable pub handle_mtrap : Cmd Machine (Unit {0})
handle_mtrap = do
  m ← get
  (if m.mcause == cause_mtimer
      then handle_timer
      else if m.mcause == cause_fetch_access
      then handle_instruction_access_fault
      else if m.mcause == cause_load_access
      then (handle_load_access_fault >> handle_store_access_fault)
      else if m.mcause == cause_store_access
      then handle_store_access_fault
      else if m.mcause == cause_illegal_instruction
      then stop panicked
      else if m.mcause == cause_misaligned_load
      then handle_misaligned_load
      else if m.mcause == cause_misaligned_store
      then handle_misaligned_store
      else stop panicked)

-- handle_mtrap, whatever the cause: on the timer interrupt, it moves the next one an interval ahead
-- on hart 0, raises the software interrupt of supervisor mode and changes nothing else; on every
-- other cause it panics.
pub handle_mtrap_lem :
    (m : Machine)
    → handle_mtrap m ≡ (
        if m.mcause == cause_mtimer
        then ok tt (record (write_mtimecmp 0 ((m.mtimecmp 0 + timer_interval) % 2 ^ 64) m) {
          sip = sip_ssip;
        })
        else halt panicked)
unfolding handle_mtrap handle_timer handle_instruction_access_fault handle_load_access_fault
    handle_store_access_fault handle_misaligned_load handle_misaligned_store
handle_mtrap_lem m = ground arith
