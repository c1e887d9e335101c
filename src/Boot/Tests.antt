-- ===== src/Boot/Tests.antt =====
-- Starting the kernel and loading programs on the small machine.
use pke.Base.{
  Halt, halt, ◌≡◌, ℕ, ok, true, some, if◌then◌else◌, ◌==◌, inl, inr, NoReturn, refl, arith,
}
use pke.Boot.Stays.{back}
use pke.Boot.LoaderStays.{ReadsStay}
use pke.Boot.Elf.{ElfHeader, ProgHeader, ElfFile, load_bincode_from_host_elf, Host}
use pke.Boot.Refused.{load_bincode-refused}
use pke.Boot.Stuck.{start_memory, start_memory-NoReturn}
use pke.Samples.{machine}

start_memory-NoReturn_example : NoReturn (start_memory 0x8001_0000 0x8000_5000 machine)
start_memory-NoReturn_example =
    start_memory-NoReturn machine 0x8001_0000 0x8000_5000 refl (omega arith) (omega arith)
      (omega arith) refl

-- The second segment of a program does not fit below a page.
abbrev two_segments : ElfHeader
two_segments = record { magic = 0x464c_457f; entry = 0x1_0000; phoff = 64; phnum = 2 }

abbrev segment : ℕ → ProgHeader
segment memsz = record {
  type = 1;
  flags = 5;
  off = 4096;
  vaddr = 0x1_0000;
  filesz = 900;
  memsz = memsz;
}

abbrev large_program : ElfFile
large_program = record {
  ehdr = some two_segments;
  prog_header = λ off. if off == 64 then some (segment 1000) else some (segment 5000);
  pread = λ dest nb off k. ok true k;
}

abbrev large_host : Host
large_host = record { argc = some 2; file = some large_program }

large_reads : ReadsStay large_program
large_reads dest nb off k = back

load_bincode-refused_example :
    (h : Halt) × (load_bincode_from_host_elf large_host 0 machine ≡ halt h)
load_bincode-refused_example =
    load_bincode-refused large_host large_program two_segments 0 machine refl large_reads refl
      (inr (1, omega arith, inr (segment 5000, refl, refl, inr (inr (inl (omega arith))))))
