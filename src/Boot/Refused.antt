-- ===== src/Boot/Refused.antt =====
-- The programs that the loader of kernel/elf.c refuses.
use pke.Base.{
  ℕ, zero, suc, ◌+◌, ◌*◌, ◌%◌, ◌^◌, ◌<◌, ◌≤◌, ◌≡◌, ◌≢◌, ◌⊎◌, refl, sym, subst, ap, ◌∙◌, ◌/◌, ◌-◌,
  Bool, true, false, ltb, not, ◌==◌, if◌then◌else◌, arith, inl, inr, Bool-cases, none, some, Cmd,
  Run, Halt, ok, halt, pure, ◌>>=◌, ◌>>◌, panicked, NoReturn, NoReturn-bind, NoReturn-then, halted,
  Partly, partly, gone, Partly-bind, Partly-any, Partly-NoReturn, bit_or, ensure,
}
use pke.Pmm.State.{page_size}
use pke.Kernel.{Kernel, store, load}
use pke.Boot.Stays.{NoReturn-Stays}
use pke.Boot.LoaderStays.{ReadsStay, load_bincode-Stays}
use pke.Boot.Elf.{
  ElfHeader, ProgHeader, ElfFile, ElfStatus, el_ok, el_eio, el_notelf, el_err, elf_alloc_mb,
  elf_init, segment_of, find_region, record_region, load_segment, load_header, int_to_uint64,
  elf_load, Host, parse_args, load_file, load_checked, load_bincode_from_host_elf,
}

-- A program header that stands for no segment that can be loaded: its end wraps around or lies
-- within its file, it does not fit below a page, or its flags are not R|X and not R|W.
abbrev pub IsRefused : ProgHeader → Type 0
IsRefused ph =
    (ph.memsz < ph.filesz)
    ⊎ (((ph.vaddr + ph.memsz) % 2 ^ 64 < ph.vaddr)
        ⊎ ((page_size ≤ ph.memsz) ⊎ ((ph.flags ≢ 5) × (ph.flags ≢ 6))))

segment_of-refused :
    (flags : ℕ) (k : Kernel) → flags ≢ 5 → flags ≢ 6 → NoReturn (segment_of flags k)
unfolding segment_of
segment_of-refused flags k no_code no_data =
    let c : (flags == bit_or 4 1) ≡ false = ground arith in
    let d : (flags == bit_or 4 2) ≡ false = ground arith in rw (c, d) halted

elf_alloc_mb-refused :
    (p va size : ℕ) (k : Kernel) → page_size ≤ size → NoReturn (elf_alloc_mb p va size k)
unfolding elf_alloc_mb
elf_alloc_mb-refused p va size k big =
    let c : ltb size page_size ≡ false = ground arith in rw (elf_alloc_mb, c) halted

record_region-refused :
    (p : ℕ) (ph : ProgHeader) (k : Kernel)
    → ph.flags ≢ 5
    → ph.flags ≢ 6
    → NoReturn (record_region p ph k)
unfolding record_region store load
record_region-refused p ph k no_code no_data =
    NoReturn-bind (find_region 256 (k.procs p).mapped_info 0 k) _
      λ j s. NoReturn-then _ (segment_of-refused ph.flags _ no_code no_data)

-- Control does not come back with EL_OK.
abbrev NotLoaded : ElfStatus → Kernel → Type 0
NotLoaded status k = status ≢ el_ok

Partly-if :
    (b : Bool) (m n : Cmd Kernel ElfStatus) (k : Kernel)
    → Partly NotLoaded (m k)
    → (b ≡ false → Partly NotLoaded (n k))
    → Partly NotLoaded ((if b then m else n) k)
Partly-if true m n k p q = p
Partly-if false m n k p q = q refl

load_pages-refused :
    (file : ElfFile) (p : ℕ) (ph : ProgHeader) (k : Kernel)
    → (page_size ≤ ph.memsz) ⊎ ((ph.flags ≢ 5) × (ph.flags ≢ 6))
    → Partly NotLoaded (
        (elf_alloc_mb p ph.vaddr ph.memsz >>= λ dest. file.pread dest ph.memsz ph.off >>= λ full.
        if full then record_region p ph >> pure el_ok else pure el_eio)
          k)
load_pages-refused file p ph k (inl big) =
    gone (NoReturn-then _ (elf_alloc_mb-refused p ph.vaddr ph.memsz k big))
load_pages-refused file p ph k (inr (no_code, no_data)) =
    Partly-bind (Partly-any (elf_alloc_mb p ph.vaddr ph.memsz k)) λ dest s _.
      Partly-bind (Partly-any (file.pread dest ph.memsz ph.off s)) λ full t _.
        elim (Bool-cases full) [
          | inl all ↦ rw all (gone (NoReturn-then _ (record_region-refused p ph t no_code no_data)))
          | inr short ↦ rw short (partly (λ e. cc))
        ]

load_segment-refused :
    (file : ElfFile) (p : ℕ) (ph : ProgHeader) (k : Kernel)
    → IsRefused ph
    → Partly NotLoaded (load_segment file p ph k)
unfolding load_segment
load_segment-refused file p ph k bad =
    Partly-if (ltb ph.memsz ph.filesz) _ _ k (partly (λ e. cc)) λ fits.
      Partly-if (ltb ((ph.vaddr + ph.memsz) % 2 ^ 64) ph.vaddr) _ _ k (partly (λ e. cc)) λ ends.
        elim bad [
          | inl short ↦ absurd (ground arith)
          | inr (inl wraps) ↦ absurd (ground arith)
          | inr (inr rest) ↦ load_pages-refused file p ph k rest
        ]

-- The header at `off` cannot be read, or is that of a segment that is refused.
abbrev pub Refuses : ElfFile → ℕ → Type 0
Refuses file off =
    (file.prog_header off ≡ none)
    ⊎ ((ph : ProgHeader) × (file.prog_header off ≡ some ph) × (ph.type ≡ 1) × IsRefused ph)

load_header-refused :
    (file : ElfFile) (p off : ℕ) (k : Kernel)
    → Refuses file off
    → Partly NotLoaded (load_header file p off k)
unfolding load_header
load_header-refused file p off k (inl unread) = rw (unread, load_header) (partly (λ e. cc))
load_header-refused file p off k (inr (ph, e, is_load, bad)) =
    let t : (ph.type == 1) ≡ true = ground arith in
    rw (e, load_header, t) (load_segment-refused file p ph k bad)

-- The lower 32 bits of a number as a signed number, in 64 bits: bit 31 fills the upper half.
abbrev pub sign_extended : ℕ → ℕ
sign_extended x = x % 2 ^ 32 + x / 2 ^ 31 % 2 * (2 ^ 64 - 2 ^ 32)

int_to_uint64_lem : (x : ℕ) → int_to_uint64 (x % 2 ^ 32) ≡ sign_extended x
unfolding int_to_uint64
int_to_uint64_lem x = ground arith

module _ (file : ElfFile) (p : ℕ) where
  stops :
      (rounds off : ℕ) (status : ElfStatus) (k : Kernel)
      → status ≢ el_ok
      → Partly NotLoaded (elim status [
        | el_ok ↦ elf_load file p rounds off k
        | el_eio ↦ ok el_eio k
        | el_notelf ↦ ok el_notelf k
        | el_err ↦ ok el_err k
      ])
  stops rounds off el_ok k ne = absurd (ne refl)
  stops rounds off el_eio k ne = partly ne
  stops rounds off el_notelf k ne = partly ne
  stops rounds off el_err k ne = partly ne

  goes_on :
      (rounds off : ℕ) (status : ElfStatus) (k : Kernel)
      → Partly NotLoaded (elf_load file p rounds off k)
      → Partly NotLoaded (elim status [
        | el_ok ↦ elf_load file p rounds off k
        | el_eio ↦ ok el_eio k
        | el_notelf ↦ ok el_notelf k
        | el_err ↦ ok el_err k
      ])
  goes_on rounds off el_ok k rest = rest
  goes_on rounds off el_eio k rest = partly (λ e. cc)
  goes_on rounds off el_notelf k rest = partly (λ e. cc)
  goes_on rounds off el_err k rest = partly (λ e. cc)

  elf_load-refused :
      (rounds i off : ℕ) (k : Kernel)
      → i < rounds
      → Refuses file (sign_extended (off + 56 * i))
      → Partly NotLoaded (elf_load file p rounds (off % 2 ^ 32) k)
  unfolding elf_load
  elf_load-refused zero i off k lt bad = absurd (omega arith)
  elf_load-refused (suc rounds) zero off k lt bad =
      let here : sign_extended (off + 56 * 0) ≡ int_to_uint64 (off % 2 ^ 32) =
        ap sign_extended (omega arith) ∙ sym (int_to_uint64_lem off) in
      Partly-bind
        (load_header-refused file p (int_to_uint64 (off % 2 ^ 32)) k
          (subst (Refuses file) here bad))
        λ status s ne. stops rounds ((off % 2 ^ 32 + 56) % 2 ^ 32) status s ne
  elf_load-refused (suc rounds) (suc i) off k lt bad =
      let next : off + 56 * suc i ≡ off + 56 + 56 * i = omega arith in
      let bad' = subst (λ x. Refuses file (sign_extended x)) next bad in
      let wrap : (off % 2 ^ 32 + 56) % 2 ^ 32 ≡ (off + 56) % 2 ^ 32 = omega arith in
      Partly-bind (Partly-any (load_header file p (int_to_uint64 (off % 2 ^ 32)) k)) λ status s _.
        goes_on rounds ((off % 2 ^ 32 + 56) % 2 ^ 32) status s (
          subst (λ o. Partly NotLoaded (elf_load file p rounds o s)) (sym wrap)
            (elf_load-refused rounds i (off + 56) s (omega arith) bad'))

  -- load_file panics on all but EL_OK.
  only_ok :
      (status : ElfStatus) (r : Run Kernel (Unit {0}))
      → status ≢ el_ok
      → NoReturn (elim status [ el_ok ↦ r | _ ↦ halt panicked ])
  only_ok el_ok r ne = absurd (ne refl)
  only_ok el_eio r ne = halted
  only_ok el_notelf r ne = halted
  only_ok el_err r ne = halted

  load_file-refused :
      (ehdr : ElfHeader) (i : ℕ) (k : Kernel)
      → i < ehdr.phnum
      → Refuses file (sign_extended (ehdr.phoff + 56 * i))
      → NoReturn (load_file file ehdr p k)
  unfolding load_file
  load_file-refused ehdr i k lt bad = Partly-NoReturn (
      Partly-bind (elf_load-refused ehdr.phnum i ehdr.phoff k lt bad)
        λ status s ne. gone (only_ok status _ ne))

load_bincode-NoReturn :
    (host : Host) (file : ElfFile) (ehdr : ElfHeader) (p : ℕ) (k : Kernel)
    → host.file ≡ some file
    → file.ehdr ≡ some ehdr
    → (ehdr.magic ≢ 0x464c_457f)
      ⊎ ((i : ℕ) × (i < ehdr.phnum) × Refuses file (sign_extended (ehdr.phoff + 56 * i)))
    → NoReturn (load_bincode_from_host_elf host p k)
unfolding load_bincode_from_host_elf load_checked elf_init
load_bincode-NoReturn host file ehdr p k opened read bad =
    NoReturn-bind (parse_args host k) _
      λ argc s. NoReturn-bind (ensure (not (argc == 0)) panicked s) _ λ _ t. rw (opened) (checked t)
  where
    checked : (t : Kernel) → NoReturn (load_checked file p t)
    checked t = elim (Bool-cases (ehdr.magic == 0x464c_457f)) [
      | inr other ↦ rw (read, load_checked, other) halted
      | inl same ↦ elim bad [
        | inl ne ↦ absurd (ne (ground arith))
        | inr (i, lt, r) ↦
            let init : elf_init file ≡ el_ok = rw (read, elf_init, same) refl in
            rw (init, load_checked, read) (load_file-refused file p ehdr i t lt r)
      ]
    ]

-- load_bincode_from_host_elf neither returns nor leaves for user mode, so that no process starts,
-- when the reads of the program's file do not leave for user mode and the program has no ELF magic
-- number, or one of its program headers, read at the lower 32 bits of its offset with their sign,
-- cannot be read or is that of a segment to be loaded with less memory than file contents, with an
-- end that wraps around, with a page or more, or with flags other than R|X and R|W.
pub load_bincode-refused :
    (host : Host) (file : ElfFile) (ehdr : ElfHeader) (p : ℕ) (k : Kernel)
    → host.file ≡ some file
    → ReadsStay file
    → file.ehdr ≡ some ehdr
    → (ehdr.magic ≢ 0x464c_457f)
      ⊎ ((i : ℕ) × (i < ehdr.phnum) × Refuses file (sign_extended (ehdr.phoff + 56 * i)))
    → (h : Halt) × (load_bincode_from_host_elf host p k ≡ halt h)
load_bincode-refused host file ehdr p k opened reads read bad =
    NoReturn-Stays (load_bincode-NoReturn host file ehdr p k opened read bad)
      (load_bincode-Stays host file p k opened reads)
