-- ===== src/Machine/Start.antt =====
-- The start of machine mode: kernel/machine/minit.c.
use pke.Base.{
  false, arith, ne→==_false, zero, suc, sym, min, ◌≢◌, ℕ, ◌+◌, ◌*◌, ◌-◌, ◌/◌, ◌%◌, ◌^◌, ◌≡◌, refl,
  Cmd, ok, pure, modify, get, ◌>>=◌, ◌>>◌, ◌==◌, if◌then◌else◌, bit_and, bit_or, Returns, returns,
}
use Prim.Native.Nat.{max}
use native.Mathlib.Nat.{pow-suc, div-div-eq-div-mul}
use pke.Base.Bits.{or_step, and_step}
use pke.Machine.Csr.{
  Machine, mstatus_mpp_mask, mstatus_mpp_s, mstatus_mie, mip_ssip, mip_stip, mip_seip,
  cause_misaligned_fetch, cause_fetch_page_fault, cause_breakpoint, sie_seie, sie_stie, sie_ssie,
  mie_mtie, timer_interval, write_mtimecmp,
}
use pke.Trap.Handler.{cause_user_ecall, cause_load_page_fault, cause_store_page_fault}

-- `supports_extension('S')`
unfoldable pub supports_s : Machine → ℕ
supports_s m = bit_and m.misa (2 ^ 18)

unfoldable pub delegate_traps : Cmd Machine (Unit {0})
delegate_traps = do
  m ← get
  let interrupts = bit_or (bit_or mip_ssip mip_stip) mip_seip
  let exceptions =
      bit_or
        (bit_or
          (bit_or
            (bit_or (bit_or (2 ^ cause_misaligned_fetch) (2 ^ cause_fetch_page_fault))
              (2 ^ cause_breakpoint))
            (2 ^ cause_load_page_fault))
          (2 ^ cause_store_page_fault))
        (2 ^ cause_user_ecall)
  (if supports_s m == 0
      then pure tt
      else modify (λ t. record t { mideleg = interrupts; medeleg = exceptions }))

unfoldable pub timerinit : ℕ → Cmd Machine (Unit {0})
timerinit hartid = do
  modify (λ m. write_mtimecmp hartid ((m.mtime + timer_interval) % 2 ^ 64) m)
  modify (λ m. record m { mie = bit_or m.mie mie_mtie })

-- The bit `k` of a word.
abbrev pub bit : ℕ → ℕ → ℕ
bit k x = x / 2 ^ k % 2

half_shift : (k a : ℕ) → a / 2 ^ suc k ≡ a / 2 / 2 ^ k
half_shift k a =
    let e : 2 ^ suc k ≡ 2 * 2 ^ k = omega (arith, pow-suc 2 k) in
    rw e (sym (div-div-eq-div-mul a 2 (2 ^ k)))

pub bit-or : (k a b : ℕ) → bit k (bit_or a b) ≡ max (bit k a) (bit k b)
bit-or zero a b = omega (arith, or_step a b)
bit-or (suc k) a b =
    let e : bit_or a b / 2 ≡ bit_or (a / 2) (b / 2) = omega (arith, or_step a b) in
    rw (half_shift k (bit_or a b), half_shift k a, half_shift k b, e) (bit-or k (a / 2) (b / 2))

pub bit-and : (k a b : ℕ) → bit k (bit_and a b) ≡ min (bit k a) (bit k b)
bit-and zero a b = omega (arith, and_step a b)
bit-and (suc k) a b =
    let e : bit_and a b / 2 ≡ bit_and (a / 2) (b / 2) = omega (arith, and_step a b) in
    rw (half_shift k (bit_and a b), half_shift k a, half_shift k b, e) (bit-and k (a / 2) (b / 2))

bit-or_left : (k a b : ℕ) → bit k a ≡ 1 → bit k (bit_or a b) ≡ 1
bit-or_left k a b h = omega (arith, bit-or k a b)

bit-or_right : (k a b : ℕ) → bit k b ≡ 1 → bit k (bit_or a b) ≡ 1
bit-or_right k a b h = omega (arith, bit-or k a b)

bit-or_none : (k a b : ℕ) → bit k a ≡ 0 → bit k b ≡ 0 → bit k (bit_or a b) ≡ 0
bit-or_none k a b h h' = omega (arith, bit-or k a b)

bit-and_none : (k a b : ℕ) → bit k b ≡ 0 → bit k (bit_and a b) ≡ 0
bit-and_none k a b h = omega (arith, bit-and k a b)

-- What `mret` and the traps after it rely on.
pub record Ready (s_start mtrapvec hartid : ℕ) (m t : Machine) : Type 0 where
  pub entry : t.mepc ≡ s_start
  pub vector : t.mtvec ≡ mtrapvec
  pub supervisor : (bit 11 t.mstatus ≡ 1) × (bit 12 t.mstatus ≡ 0)
  pub interrupts : bit 3 t.mstatus ≡ 1
  pub timer : bit 7 t.mie ≡ 1
  pub delegated : (bit 1 t.mideleg ≡ 1) × (bit 5 t.mideleg ≡ 1) × (bit 9 t.mideleg ≡ 1)
  pub system_calls : bit cause_user_ecall t.medeleg ≡ 1
  pub let_through : (bit 1 t.sie ≡ 1) × (bit 5 t.sie ≡ 1) × (bit 9 t.sie ≡ 1)
  pub deadline : t.mtimecmp hartid ≡ (m.mtime + timer_interval) % 2 ^ 64

-- `spike_file_init`, `query_htif` and `query_mem` are of the host interface; the addresses are the
-- linker's.
module _ (spike_file_init : Cmd Machine (Unit {0}))
    (query_htif query_mem : ℕ → Cmd Machine (Unit {0})) (g_itrframe s_start mtrapvec : ℕ) where
  unfoldable pub init_dtb : ℕ → Cmd Machine (Unit {0})
  init_dtb dtb = do query_htif dtb; query_mem dtb

  unfoldable pub m_start : ℕ → ℕ → Cmd Machine (Unit {0})
  m_start hartid dtb = do
    spike_file_init
    init_dtb dtb
    modify (λ m. record m { mscratch = g_itrframe })
    modify (λ m. record m {
      mstatus = bit_or (bit_and m.mstatus (2 ^ 64 - 1 - mstatus_mpp_mask)) mstatus_mpp_s;
    })
    modify (λ m. record m { mepc = s_start })
    modify (λ m. record m { mtvec = mtrapvec })
    modify (λ m. record m { mstatus = bit_or m.mstatus mstatus_mie })
    delegate_traps
    modify (λ m. record m { sie = bit_or (bit_or (bit_or m.sie sie_seie) sie_stie) sie_ssie })
    timerinit hartid

  -- m_start on a hart with supervisor mode, when the host interface leaves the registers as they
  -- are: it comes to its `mret` with s_start as the address to return to, in supervisor mode, with
  -- mtrapvec as the vector, interrupts and the timer interrupt on, the three interrupts of
  -- supervisor mode and the system calls of user mode delegated and let through, and the first
  -- timer interrupt of the hart an interval ahead.
  pub m_start-Ready :
      (m : Machine) (hartid dtb : ℕ)
      → ((t : Machine) → spike_file_init t ≡ ok tt t)
      → ((t : Machine) → query_htif dtb t ≡ ok tt t)
      → ((t : Machine) → query_mem dtb t ≡ ok tt t)
      → supports_s m ≢ 0
      → Returns (λ _ t. Ready s_start mtrapvec hartid m t) (m_start hartid dtb m)
  unfolding m_start init_dtb delegate_traps timerinit supports_s
  m_start-Ready m hartid dtb files htif tree mode =
      let test : (bit_and m.misa (2 ^ 18) == 0) ≡ false = ne→==_false _ _ mode in
      rw (files, htif, tree, test)
        (returns (record {
          entry = refl;
          vector = refl;
          supervisor = (
            bit-or_left 11 _ mstatus_mie (bit-or_right 11 _ mstatus_mpp_s refl),
            bit-or_none 12 _ mstatus_mie
                (bit-or_none 12 _ mstatus_mpp_s
                  (bit-and_none 12 m.mstatus (2 ^ 64 - 1 - mstatus_mpp_mask) refl) refl)
                refl,
          );
          interrupts = bit-or_right 3 _ mstatus_mie refl;
          timer = bit-or_right 7 m.mie mie_mtie refl;
          delegated = (refl, refl, refl);
          system_calls = refl;
          let_through = (
            bit-or_right 1 _ sie_ssie refl,
            bit-or_left 5 _ sie_ssie (bit-or_right 5 _ sie_stie refl),
            bit-or_left 9 _ sie_ssie
                (bit-or_left 9 _ sie_stie (bit-or_right 9 m.sie sie_seie refl)),
          );
          deadline = ground arith;
        }))
