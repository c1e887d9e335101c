-- ===== src/Boot/Elf.antt =====
-- kernel/elf.c. The file is what the calls of spike_file_pread give; a read that falls short is
-- `none` or `false`.
use pke.Base.{
  ℕ, zero, suc, ◌+◌, ◌-◌, ◌*◌, ◌/◌, ◌%◌, ◌^◌, Bool, true, false, ◌==◌, ltb, not, if◌then◌else◌,
  bit_or, Option, none, some, Cmd, ok, halt, panicked, get, pure, stop, ensure, ◌>>=◌, ◌>>◌,
}
use pke.Pmm.State.{page_size}
use pke.Pmm.Cache.{alloc_page}
use pke.Kernel.{Kernel, load, store, zero_words, on_pmm}
use pke.Vmm.Pte.{prot_to_type, prot_read, prot_write, prot_exec}
use pke.Vmm.Maps.{user_vm_map}
use pke.Process.Pool.{region, region_va, code_segment, data_segment, update_proc}
use pke.Trapframe

-- The fields of `elf_header` and `elf_prog_header` that the loader reads.
pub record ElfHeader : Type 0 where
  pub magic : ℕ
  pub entry : ℕ
  pub phoff : ℕ
  pub phnum : ℕ

pub record ProgHeader : Type 0 where
  pub type : ℕ
  pub flags : ℕ
  pub off : ℕ
  pub vaddr : ℕ
  pub filesz : ℕ
  pub memsz : ℕ

-- spike_file_pread of the two kinds of headers, and of `nb` bytes at `offset` to `dest`.
pub record ElfFile : Type 0 where
  pub ehdr : Option ElfHeader
  pub prog_header : ℕ → Option ProgHeader
  pub pread : ℕ → ℕ → ℕ → Cmd Kernel Bool

-- The outcomes of `elf_status` that the loader has.
pub data ElfStatus : Type 0 where
  el_ok el_eio el_notelf el_err : ElfStatus

unfoldable pub elf_alloc_mb : ℕ → ℕ → ℕ → Cmd Kernel ℕ
elf_alloc_mb p elf_va size = do
  ensure (ltb size page_size) panicked
  pa ← on_pmm alloc_page
  ensure (not (pa == 0)) panicked
  zero_words pa page_size
  k ← get
  user_vm_map (k.procs p).pagetable elf_va page_size pa
      (prot_to_type (bit_or (bit_or prot_write prot_read) prot_exec) true)
  pure pa

unfoldable pub elf_init : ElfFile → ElfStatus
elf_init file = elim file.ehdr [
  | none ↦ el_eio
  | some h ↦ if h.magic == 0x464c_457f then el_ok else el_notelf
]

-- `for (j = 0; j < PGSIZE / sizeof(mapped_region); j++) if (mapped_info[j].va == 0x0) break;`
unfoldable pub find_region : ℕ → ℕ → ℕ → Cmd Kernel ℕ
find_region zero mapped_info j = pure j
find_region (suc rounds) mapped_info j = do
  va ← region_va mapped_info j
  (λ k. elim (va == 0) [ true ↦ ok j k | false ↦ find_region rounds mapped_info (j + 1) k ])

-- `seg_type` from the flags of the segment.
unfoldable pub segment_of : ℕ → Cmd Kernel ℕ
segment_of flags =
    if flags == bit_or 4 1
    then pure code_segment
    else if flags == bit_or 4 2
    then pure data_segment
    else stop panicked

-- The region of a segment that has been loaded.
unfoldable pub record_region : ℕ → ProgHeader → Cmd Kernel (Unit {0})
record_region p ph = do
  k ← get
  let info = (k.procs p).mapped_info
  j ← find_region 256 info 0
  store (region info j) ph.vaddr
  w ← load (region info j + 8)
  store (region info j + 8) (1 + w / 2 ^ 32 * 2 ^ 32)
  seg_type ← segment_of ph.flags
  store (region info j + 8) (1 + seg_type * 2 ^ 32)
  update_proc p (λ q. record q { total_mapped_region = q.total_mapped_region + 1 })

-- A segment to be loaded.
unfoldable pub load_segment : ElfFile → ℕ → ProgHeader → Cmd Kernel ElfStatus
load_segment file p ph =
    if ltb ph.memsz ph.filesz
    then pure el_err
    else if ltb ((ph.vaddr + ph.memsz) % 2 ^ 64) ph.vaddr
    then pure el_err
    else do
      dest ← elf_alloc_mb p ph.vaddr ph.memsz
      full ← file.pread dest ph.memsz ph.off
      (if full then record_region p ph >> pure el_ok else pure el_eio)

-- The body of the loop of elf_load.
unfoldable pub load_header : ElfFile → ℕ → ℕ → Cmd Kernel ElfStatus
load_header file p off k = elim (file.prog_header off) [
  | none ↦ ok el_eio k
  | some ph ↦ (if ph.type == 1 then load_segment file p ph else pure el_ok) k
]

-- An `int`, which is kept as its 32 bits, as the `uint64` that elf_fpread takes: the sign is
-- extended.
unfoldable pub int_to_uint64 : ℕ → ℕ
int_to_uint64 off = if ltb off (2 ^ 31) then off else 2 ^ 64 - 2 ^ 32 + off

-- `for (i = 0, off = phoff; i < phnum; i++, off += sizeof(ph_addr))`, with the headers left; `off` is
-- an `int`, kept as its 32 bits.
unfoldable pub elf_load : ElfFile → ℕ → ℕ → ℕ → Cmd Kernel ElfStatus
elf_load file p zero off = pure el_ok
elf_load file p (suc rounds) off = do
  status ← load_header file p (int_to_uint64 off)
  (λ k. elim status [
    | el_ok ↦ elf_load file p rounds ((off + 56) % 2 ^ 32) k
    | el_eio ↦ ok el_eio k
    | el_notelf ↦ ok el_notelf k
    | el_err ↦ ok el_err k
  ])

-- What the host gives: the number of strings on its command line, or `none` for an error, and the
-- file that the second of them names, or `none` when it cannot be opened.
pub record Host : Type 0 where
  pub argc : Option ℕ
  pub file : Option ElfFile

-- The number of strings behind the name of the kernel.
unfoldable pub parse_args : Host → Cmd Kernel ℕ
parse_args host k = elim host.argc [
  | none ↦ halt panicked
  | some pk_argc ↦ ok ((pk_argc + 2 ^ 64 - 1) % 2 ^ 64) k
]

unfoldable pub load_file : ElfFile → ElfHeader → ℕ → Cmd Kernel (Unit {0})
load_file file ehdr p = do
  status ← elf_load file p ehdr.phnum (ehdr.phoff % 2 ^ 32)
  (λ k. elim status [
    | el_ok ↦ store ((k.procs p).trapframe + Trapframe.epc) ehdr.entry k
    | _ ↦ halt panicked
  ])

unfoldable pub load_checked : ElfFile → ℕ → Cmd Kernel (Unit {0})
load_checked file p k = elim (elf_init file) [
  | el_ok ↦ elim file.ehdr [ none ↦ halt panicked | some ehdr ↦ load_file file ehdr p k ]
  | _ ↦ halt panicked
]

unfoldable pub load_bincode_from_host_elf : Host → ℕ → Cmd Kernel (Unit {0})
load_bincode_from_host_elf host p = do
  argc ← parse_args host
  ensure (not (argc == 0)) panicked
  (λ k. elim host.file [ none ↦ halt panicked | some file ↦ load_checked file p k ])
