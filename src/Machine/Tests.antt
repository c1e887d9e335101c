-- ===== src/Machine/Tests.antt =====
-- Machine mode at its start and on a timer interrupt.
use pke.Base.{◌^◌, ◌≡◌, refl, ok, Returns, Cmd}
use pke.Machine.Csr.{Machine, cause_mtimer}
use pke.Machine.Start.{Ready, m_start, supports_s, m_start-Ready}

-- All registers are 0 but for misa, which has supervisor mode.
abbrev reset : Machine
reset = record {
  mcause = 0;
  mepc = 0;
  mscratch = 0;
  mstatus = 0;
  mtvec = 0;
  mideleg = 0;
  medeleg = 0;
  mie = 0;
  sie = 0;
  sip = 0;
  misa = 2 ^ 18;
  mtime = 77;
  mtimecmp = λ h. 0;
}

abbrev idle : Cmd Machine (Unit {0})
idle m = ok tt m

has_supervisor : supports_s reset ≡ 2 ^ 18
unfolding supports_s
has_supervisor = refl

m_start-Ready_example :
    Returns
      (λ _ t. Ready 0x8000_1000 0x8000_2000 0 reset t)
      (m_start idle (λ _. idle) (λ _. idle) 0x8000_3000 0x8000_1000 0x8000_2000 0 4096 reset)
m_start-Ready_example =
    m_start-Ready idle (λ _. idle) (λ _. idle) 0x8000_3000 0x8000_1000 0x8000_2000 reset 0 4096
      (λ t. refl) (λ t. refl) (λ t. refl) λ e. let z = has_supervisor in cc

-- The timer interrupt fires at 5000000.
abbrev ringing : Machine
ringing = record reset { mcause = cause_mtimer; mtimecmp = λ h. 5000000 }
