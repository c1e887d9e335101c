-- ===== src/Process/Pool.antt =====
-- init_proc_pool, alloc_process and free_process of kernel/process.c.
use pke.Base.{
  ℕ, zero, suc, ◌+◌, ◌-◌, ◌*◌, ◌/◌, ◌%◌, ◌^◌, Bool, true, false, ltb, if◌then◌else◌, replicate,
  Option, none, some, Cmd, ok, halt, panicked, get, pure, modify, ◌>>=◌, ◌>>◌, bit_or,
}
use pke.Pmm.State.{page_size}
use pke.Pmm.Cache.{alloc_page}
use pke.Kernel.{
  Process, ProcStatus, Kernel, nproc, max_heap_pages, write_proc, load, store, zero_words, on_pmm,
}
use pke.Sched.Next.{Image}
use pke.Vmm.Pte.{prot_to_type, prot_read, prot_write, prot_exec}
use pke.Vmm.Maps.{user_vm_map}
use pke.Trapframe

-- `enum segment_type`, by its numbers.
abbrev pub stack_segment : ℕ
stack_segment = 0

abbrev pub context_segment : ℕ
context_segment = 1

abbrev pub system_segment : ℕ
system_segment = 2

abbrev pub heap_segment : ℕ
heap_segment = 3

abbrev pub code_segment : ℕ
code_segment = 4

abbrev pub data_segment : ℕ
data_segment = 5

abbrev pub user_stack_top : ℕ
user_stack_top = 0x7fff_f000

abbrev pub user_free_address_start : ℕ
user_free_address_start = page_size * 1024

-- A struct of zero bytes.
abbrev pub zero_process : Process
zero_process = record {
  kstack = 0;
  pagetable = 0;
  trapframe = 0;
  mapped_info = 0;
  total_mapped_region = 0;
  user_heap = record {
    heap_top = 0;
    heap_bottom = 0;
    free_pages_address = replicate max_heap_pages 0;
    free_pages_count = 0;
  };
  pid = 0;
  status = ProcStatus.free;
  parent = none;
  queue_next = none;
  tick_count = 0;
}

unfoldable pub init_proc_pool : Cmd Kernel (Unit {0})
init_proc_pool k =
    ok tt
      (record k { procs = λ i. if ltb i nproc then record zero_process { pid = i } else k.procs i })

unfoldable pub is_free : ProcStatus → Bool
is_free ProcStatus.free = true
is_free ProcStatus.ready = false
is_free ProcStatus.running = false
is_free ProcStatus.blocked = false
is_free ProcStatus.zombie = false

-- `for (i = 0; i < NPROC; i++) if (procs[i].status == FREE) break;`
unfoldable pub find_free : ℕ → ℕ → (ℕ → Process) → Option ℕ
find_free zero i procs = none
find_free (suc rounds) i procs = elim (is_free (procs i).status) [
  | true ↦ some i
  | false ↦ find_free rounds (i + 1) procs
]

-- A `mapped_region` is two words: `va`, then `npages` with `seg_type` in the high half.
abbrev pub region : ℕ → ℕ → ℕ
region mapped_info i = mapped_info + 16 * i

unfoldable pub write_region : ℕ → ℕ → ℕ → ℕ → ℕ → Cmd Kernel (Unit {0})
write_region mapped_info i va npages seg_type = do
  store (region mapped_info i) va
  store (region mapped_info i + 8) (npages % 2 ^ 32 + seg_type * 2 ^ 32)

unfoldable pub region_va : ℕ → ℕ → Cmd Kernel ℕ
region_va mapped_info i = load (region mapped_info i)

unfoldable pub region_npages : ℕ → ℕ → Cmd Kernel ℕ
region_npages mapped_info i = do w ← load (region mapped_info i + 8); pure (w % 2 ^ 32)

unfoldable pub region_seg_type : ℕ → ℕ → Cmd Kernel ℕ
region_seg_type mapped_info i = do w ← load (region mapped_info i + 8); pure (w / 2 ^ 32)

abbrev pub update_proc : ℕ → (Process → Process) → Cmd Kernel (Unit {0})
update_proc i f = modify (λ k. write_proc i (f (k.procs i)) k)

-- The pages of a new process.
unfoldable pub init_pages : ℕ → Cmd Kernel ℕ
init_pages i = do
  trapframe ← on_pmm alloc_page
  update_proc i (λ p. record p { trapframe = trapframe })
  zero_words trapframe Trapframe.size
  pagetable ← on_pmm alloc_page
  update_proc i (λ p. record p { pagetable = pagetable })
  zero_words pagetable page_size
  kstack ← on_pmm alloc_page
  update_proc i (λ p. record p { kstack = (kstack + page_size) % 2 ^ 64 })
  user_stack ← on_pmm alloc_page
  store (trapframe + Trapframe.sp) user_stack_top
  mapped_info ← on_pmm alloc_page
  update_proc i (λ p. record p { mapped_info = mapped_info })
  zero_words mapped_info page_size
  pure user_stack

-- The mappings of a new process and their regions.
unfoldable pub init_regions : Image → ℕ → ℕ → Cmd Kernel (Unit {0})
init_regions im i user_stack = do
  k ← get
  let p = k.procs i
  user_vm_map p.pagetable (user_stack_top - page_size) page_size user_stack
      (prot_to_type (bit_or prot_write prot_read) true)
  write_region p.mapped_info stack_segment (user_stack_top - page_size) 1 stack_segment
  user_vm_map p.pagetable p.trapframe page_size p.trapframe
      (prot_to_type (bit_or prot_write prot_read) false)
  write_region p.mapped_info context_segment p.trapframe 1 context_segment
  user_vm_map p.pagetable im.trap_sec_start page_size im.trap_sec_start
      (prot_to_type (bit_or prot_read prot_exec) false)
  write_region p.mapped_info system_segment im.trap_sec_start 1 system_segment
  update_proc i (λ q. record q {
    user_heap = record (q.user_heap) {
      heap_top = user_free_address_start;
      heap_bottom = user_free_address_start;
      free_pages_count = 0;
    };
  })
  write_region p.mapped_info heap_segment user_free_address_start 0 heap_segment
  update_proc i (λ q. record q { total_mapped_region = 4 })

unfoldable pub init_process : Image → ℕ → Cmd Kernel ℕ
init_process im i = do user_stack ← init_pages i; init_regions im i user_stack; pure i

unfoldable pub alloc_process : Image → Cmd Kernel ℕ
alloc_process im k = elim (find_free nproc 0 k.procs) [
  | none ↦ halt panicked
  | some i ↦ init_process im i k
]

-- The status is all that changes; nothing of the process is given back.
unfoldable pub free_process : ℕ → Cmd Kernel (Unit {0})
free_process proc = update_proc proc (λ p. record p { status = ProcStatus.zombie })
