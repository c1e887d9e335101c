-- ===== src/System/Loading.antt =====
-- The loader of kernel/elf.c leaves the states and the queue of the processes alone.
use pke.Base.{
  ℕ, zero, suc, ◌+◌, ◌*◌, ◌%◌, ◌^◌, ◌≡◌, refl, ◌==◌, ltb, not, Option-cases, inl, inr, Option, none,
  some, ok, halt, Always, fine, stopped, Always-bind, Always-if, Always-ensure, Always-cases,
  Always-some, ◌-◌, Run, pure, stop, bit_or, panicked,
}
use pke.Pmm.State.{page_size}
use pke.Pmm.Cache.{alloc_page}
use pke.Kernel.{Kernel, load}
use pke.Process.Pool.{region_va, code_segment, data_segment}
use pke.Boot.Elf.{
  ElfHeader, ProgHeader, ElfFile, ElfStatus, el_ok, el_eio, el_notelf, el_err, elf_alloc_mb,
  elf_init, find_region, segment_of, record_region, load_segment, load_header, int_to_uint64,
  elf_load, Host, parse_args, load_file, load_checked, load_bincode_from_host_elf,
}
use pke.System.Still.{
  Still, Still-store, on_pmm-Still, zero_words-Still, user_vm_map-Still, Still-write,
}

-- What the host reads goes to memory, and nowhere near the processes.
abbrev pub ReadsStill : ElfFile → Type 0
ReadsStill file =
    (k₀ : Kernel) (dest nb off : ℕ) (k : Kernel)
    → Still k₀ k
    → Always (Still k₀) (file.pread dest nb off k)

module _ (k₀ : Kernel) where
  elf_alloc_mb-Still :
      (p va size : ℕ) (k : Kernel) → Still k₀ k → Always (Still k₀) (elf_alloc_mb p va size k)
  unfolding elf_alloc_mb
  elf_alloc_mb-Still p va size k h =
      Always-bind (Always-ensure (ltb size page_size) panicked k h) λ _ k₁ h₁.
        Always-bind (on_pmm-Still k₀ alloc_page k₁ h₁) λ pa k₂ h₂.
          Always-bind (Always-ensure (not (pa == 0)) panicked k₂ h₂) λ _ k₃ h₃.
            Always-bind (zero_words-Still k₀ pa page_size k₃ h₃) λ _ k₄ h₄.
              Always-bind (user_vm_map-Still k₀ (k₄.procs p).pagetable va page_size pa _ k₄ h₄)
                λ _ k₅ h₅. fine h₅

  find_region-Still :
      (rounds info j : ℕ) (k : Kernel)
      → Still k₀ k
      → Always (Still k₀) (find_region rounds info j k)
  unfolding find_region region_va load
  find_region-Still zero info j k h = fine h
  find_region-Still (suc rounds) info j k h =
      Always-cases (k.mem (info + 16 * j) == 0) _ _ (fine h)
        (find_region-Still rounds info (j + 1) k h)

  segment_of-Still : (flags : ℕ) (k : Kernel) → Still k₀ k → Always (Still k₀) (segment_of flags k)
  unfolding segment_of
  segment_of-Still flags k h =
      Always-if (flags == bit_or 4 1) (pure code_segment) _ k (fine h)
        (Always-if (flags == bit_or 4 2) (pure data_segment) (stop panicked) k (fine h) stopped)

  record_region-Still :
      (p : ℕ) (ph : ProgHeader) (k : Kernel) → Still k₀ k → Always (Still k₀) (record_region p ph k)
  unfolding record_region load
  record_region-Still p ph k h =
      Always-bind (find_region-Still 256 (k.procs p).mapped_info 0 k h) λ j k₁ h₁.
        Always-bind (Still-store k₀ _ ph.vaddr k₁ h₁) λ _ k₂ h₂.
          Always-bind (Still-store k₀ _ _ k₂ h₂) λ _ k₃ h₃.
            Always-bind (segment_of-Still ph.flags k₃ h₃) λ seg k₄ h₄.
              Always-bind (Still-store k₀ _ _ k₄ h₄)
                λ _ k₅ h₅. fine (Still-write k₀ p _ k₅ refl refl h₅)

  el_ok-Still :
      (status : ElfStatus) (r : Run Kernel (Unit {0}))
      → Always (Still k₀) r
      → Always (Still k₀) (elim status [ el_ok ↦ r | _ ↦ halt panicked ])
  el_ok-Still el_ok r p = p
  el_ok-Still el_eio r p = stopped
  el_ok-Still el_notelf r p = stopped
  el_ok-Still el_err r p = stopped

  module _ (file : ElfFile) (reads : ReadsStill file) where
    load_segment-Still :
        (p : ℕ) (ph : ProgHeader) (k : Kernel)
        → Still k₀ k
        → Always (Still k₀) (load_segment file p ph k)
    unfolding load_segment
    load_segment-Still p ph k h = Always-if (ltb ph.memsz ph.filesz) _ _ k (fine h) (
        Always-if (ltb ((ph.vaddr + ph.memsz) % 2 ^ 64) ph.vaddr) _ _ k (fine h) (
          Always-bind (elf_alloc_mb-Still p ph.vaddr ph.memsz k h) λ dest k₁ h₁.
            Always-bind (reads k₀ dest ph.memsz ph.off k₁ h₁) λ full k₂ h₂.
              Always-if full _ _ k₂
                (Always-bind (record_region-Still p ph k₂ h₂) λ _ k₃ h₃. fine h₃) (fine h₂)))

    load_header-Still :
        (p off : ℕ) (k : Kernel) → Still k₀ k → Always (Still k₀) (load_header file p off k)
    unfolding load_header
    load_header-Still p off k h = elim (Option-cases (file.prog_header off)) [
      | inl e ↦ rw (e, load_header) (fine h)
      | inr (ph, e) ↦
          rw (e, load_header)
            (Always-if (ph.type == 1) _ _ k (load_segment-Still p ph k h) (fine h))
    ]

    -- The loop goes on after EL_OK only.
    go_on-Still :
        (p rounds off : ℕ) (status : ElfStatus) (k : Kernel)
        → Still k₀ k
        → Always (Still k₀) (elf_load file p rounds off k)
        → Always (Still k₀) (elim status [
          | el_ok ↦ elf_load file p rounds off k
          | el_eio ↦ ok el_eio k
          | el_notelf ↦ ok el_notelf k
          | el_err ↦ ok el_err k
        ])
    go_on-Still p rounds off el_ok k h rest = rest
    go_on-Still p rounds off el_eio k h rest = fine h
    go_on-Still p rounds off el_notelf k h rest = fine h
    go_on-Still p rounds off el_err k h rest = fine h

    elf_load-Still :
        (p rounds off : ℕ) (k : Kernel)
        → Still k₀ k
        → Always (Still k₀) (elf_load file p rounds off k)
    unfolding elf_load
    elf_load-Still p zero off k h = fine h
    elf_load-Still p (suc rounds) off k h =
        Always-bind (load_header-Still p (int_to_uint64 off) k h) λ status s hs.
          go_on-Still p rounds ((off + 56) % 2 ^ 32) status s hs
            (elf_load-Still p rounds ((off + 56) % 2 ^ 32) s hs)

    load_file-Still :
        (ehdr : ElfHeader) (p : ℕ) (k : Kernel)
        → Still k₀ k
        → Always (Still k₀) (load_file file ehdr p k)
    unfolding load_file
    load_file-Still ehdr p k h =
        Always-bind (elf_load-Still p ehdr.phnum (ehdr.phoff % 2 ^ 32) k h)
          λ status s hs. el_ok-Still status _ (Still-store k₀ _ ehdr.entry s hs)

    load_checked-Still :
        (p : ℕ) (k : Kernel) → Still k₀ k → Always (Still k₀) (load_checked file p k)
    unfolding load_checked
    load_checked-Still p k h =
        el_ok-Still (elf_init file) _
          (Always-some file.ehdr panicked _ λ ehdr _. load_file-Still ehdr p k h)

  argc-Still :
      (argc : Option ℕ) (k : Kernel)
      → Still k₀ k
      → Always (Still k₀) (elim argc [
        | none ↦ halt panicked
        | some pk_argc ↦ ok ((pk_argc + 2 ^ 64 - 1) % 2 ^ 64) k
      ])
  argc-Still argc k h = Always-some argc panicked _ λ n _. fine h

  pub load_bincode-Still :
      (host : Host)
      → ((file : ElfFile) → host.file ≡ some file → ReadsStill file)
      → (p : ℕ) (k : Kernel) → Still k₀ k
      → Always (Still k₀) (load_bincode_from_host_elf host p k)
  unfolding load_bincode_from_host_elf parse_args
  load_bincode-Still host reads p k h = Always-bind (argc-Still host.argc k h) λ argc s hs.
      Always-bind (Always-ensure (not (argc == 0)) panicked s hs) λ _ t ht.
        Always-some host.file panicked _ λ file e. load_checked-Still file (reads file e) p t ht
