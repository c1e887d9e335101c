-- ===== src/Boot/LoaderStays.antt =====
-- The loader of kernel/elf.c never leaves for user mode, when the reads of the program's file do not.
use pke.Base.{
  ℕ, zero, suc, ◌+◌, ◌*◌, ◌%◌, ◌^◌, ◌≡◌, ◌==◌, ltb, not, some, Run, ok, halt, pure, stop, panicked,
  bit_or,
}
use pke.Pmm.State.{page_size}
use pke.Pmm.Cache.{alloc_page}
use pke.Kernel.{Kernel, load, store, zero_words}
use pke.Process.Pool.{region_va, code_segment, data_segment}
use pke.Boot.Elf.{
  ElfHeader, ProgHeader, ElfFile, ElfStatus, el_ok, el_eio, el_notelf, el_err, elf_alloc_mb,
  elf_init, segment_of, find_region, record_region, load_segment, load_header, int_to_uint64,
  elf_load, Host, parse_args, load_file, load_checked, load_bincode_from_host_elf,
}
use pke.Boot.Stays.{
  Stays, back, ended, Stays-bind, Stays-cases, Stays-if, Stays-some, Stays-ensure, on_pmm-Stays,
  alloc_page-Stays, user_vm_map-Stays,
}

elf_alloc_mb-Stays : (p va size : ℕ) (k : Kernel) → Stays (elf_alloc_mb p va size k)
unfolding elf_alloc_mb zero_words
elf_alloc_mb-Stays p va size k = Stays-bind _ (Stays-ensure (ltb size page_size) panicked k) λ _ k₁.
    Stays-bind _ (on_pmm-Stays alloc_page k₁ (alloc_page-Stays k₁.pmm)) λ pa k₂.
      Stays-bind _ (Stays-ensure (not (pa == 0)) panicked k₂)
        λ _ k₃. Stays-bind _ (user_vm_map-Stays _ va page_size pa _ _) λ _ k₄. back

find_region-Stays : (rounds info j : ℕ) (k : Kernel) → Stays (find_region rounds info j k)
unfolding find_region region_va load
find_region-Stays zero info j k = back
find_region-Stays (suc rounds) info j k =
    Stays-cases (k.mem (info + 16 * j) == 0) _ _ back (find_region-Stays rounds info (j + 1) k)

segment_of-Stays : (flags : ℕ) (k : Kernel) → Stays (segment_of flags k)
unfolding segment_of
segment_of-Stays flags k =
    Stays-if (flags == bit_or 4 1) (pure code_segment) _ k back
      (Stays-if (flags == bit_or 4 2) (pure data_segment) (stop panicked) k back ended)

record_region-Stays : (p : ℕ) (ph : ProgHeader) (k : Kernel) → Stays (record_region p ph k)
unfolding record_region load store
record_region-Stays p ph k =
    Stays-bind _ (find_region-Stays 256 (k.procs p).mapped_info 0 k)
      λ j k₁. Stays-bind _ (segment_of-Stays ph.flags _) λ seg k₂. back

el_ok-Stays :
    (status : ElfStatus) (r : Run Kernel (Unit {0}))
    → Stays r
    → Stays (elim status [ el_ok ↦ r | _ ↦ halt panicked ])
el_ok-Stays el_ok r p = p
el_ok-Stays el_eio r p = ended
el_ok-Stays el_notelf r p = ended
el_ok-Stays el_err r p = ended

-- The file is read or the machine stops, but no user program starts meanwhile.
abbrev pub ReadsStay : ElfFile → Type 0
ReadsStay file = (dest nb off : ℕ) (k : Kernel) → Stays (file.pread dest nb off k)

module _ (file : ElfFile) (reads : ReadsStay file) (p : ℕ) where
  load_segment-Stays : (ph : ProgHeader) (k : Kernel) → Stays (load_segment file p ph k)
  unfolding load_segment
  load_segment-Stays ph k = Stays-if (ltb ph.memsz ph.filesz) _ _ k back (
      Stays-if (ltb ((ph.vaddr + ph.memsz) % 2 ^ 64) ph.vaddr) _ _ k back (
        Stays-bind _ (elf_alloc_mb-Stays p ph.vaddr ph.memsz k) λ dest k₁.
          Stays-bind _ (reads dest ph.memsz ph.off k₁) λ full k₂.
            Stays-if full _ _ k₂ (Stays-bind _ (record_region-Stays p ph k₂) λ _ k₃. back) back))

  load_header-Stays : (off : ℕ) (k : Kernel) → Stays (load_header file p off k)
  unfolding load_header
  load_header-Stays off k =
      Stays-some (file.prog_header off) _ _ back
        λ ph. Stays-if (ph.type == 1) _ _ k (load_segment-Stays ph k) back

  go_on-Stays :
      (rounds off : ℕ) (status : ElfStatus) (k : Kernel)
      → Stays (elf_load file p rounds off k)
      → Stays (elim status [
        | el_ok ↦ elf_load file p rounds off k
        | el_eio ↦ ok el_eio k
        | el_notelf ↦ ok el_notelf k
        | el_err ↦ ok el_err k
      ])
  go_on-Stays rounds off el_ok k rest = rest
  go_on-Stays rounds off el_eio k rest = back
  go_on-Stays rounds off el_notelf k rest = back
  go_on-Stays rounds off el_err k rest = back

  elf_load-Stays : (rounds off : ℕ) (k : Kernel) → Stays (elf_load file p rounds off k)
  unfolding elf_load
  elf_load-Stays zero off k = back
  elf_load-Stays (suc rounds) off k =
      Stays-bind _ (load_header-Stays (int_to_uint64 off) k) λ status s.
        go_on-Stays rounds ((off + 56) % 2 ^ 32) status s
          (elf_load-Stays rounds ((off + 56) % 2 ^ 32) s)

  load_file-Stays : (ehdr : ElfHeader) (k : Kernel) → Stays (load_file file ehdr p k)
  unfolding load_file store
  load_file-Stays ehdr k =
      Stays-bind _ (elf_load-Stays ehdr.phnum (ehdr.phoff % 2 ^ 32) k)
        λ status s. el_ok-Stays status _ back

  load_checked-Stays : (k : Kernel) → Stays (load_checked file p k)
  unfolding load_checked
  load_checked-Stays k =
      el_ok-Stays (elf_init file) _ (Stays-some file.ehdr _ _ ended λ ehdr. load_file-Stays ehdr k)

pub load_bincode-Stays :
    (host : Host) (file : ElfFile) (p : ℕ) (k : Kernel)
    → host.file ≡ some file
    → ReadsStay file
    → Stays (load_bincode_from_host_elf host p k)
unfolding load_bincode_from_host_elf parse_args
load_bincode-Stays host file p k opened reads =
    Stays-bind _ (Stays-some host.argc _ _ ended λ n. back) λ argc s.
      Stays-bind _ (Stays-ensure (not (argc == 0)) panicked s)
        λ _ t. rw opened (load_checked-Stays file reads p t)
