-- ===== src/Kernel.antt =====
-- The kernel's data shared by its files: processes (kernel/process.h), memory and registers.
use pke.Base.{
  ℕ, ◌+◌, ◌-◌, ◌==◌, leb, ltb, ◌&&◌, if◌then◌else◌, List, Option, none, some, Run, Cmd, ok, to_user,
  halt, faulted,
}
use pke.Pmm.State.{Pmm}

abbrev pub nproc : ℕ
nproc = 32

abbrev pub max_heap_pages : ℕ
max_heap_pages = 32

-- `enum proc_status`.
pub data ProcStatus : Type 0 where
  free ready running blocked zombie : ProcStatus

-- `process_heap_manager`.
pub record HeapManager : Type 0 where
  pub heap_top : ℕ
  pub heap_bottom : ℕ
  pub free_pages_address : List ℕ
  pub free_pages_count : ℕ

-- A `process *` is the index in procs[], `none` the null pointer; pagetable, trapframe and
-- mapped_info are physical addresses.
pub record Process : Type 0 where
  pub kstack : ℕ
  pub pagetable : ℕ
  pub trapframe : ℕ
  pub mapped_info : ℕ
  pub total_mapped_region : ℕ
  pub user_heap : HeapManager
  pub pid : ℕ
  pub status : ProcStatus
  pub parent : Option ℕ
  pub queue_next : Option ℕ
  pub tick_count : ℕ

-- `mem a` is the 64-bit word at the physical address `a`, a multiple of 8.
pub record Kernel : Type 0 where
  pub pmm : Pmm
  pub mem : ℕ → ℕ
  pub procs : ℕ → Process
  pub current : Option ℕ
  pub ready_queue_head : Option ℕ
  pub g_kernel_pagetable : ℕ
  pub stvec : ℕ
  pub sstatus : ℕ
  pub sepc : ℕ
  pub satp : ℕ
  pub scause : ℕ
  pub stval : ℕ

-- `p->...` through a `process *`; a null pointer is a fault.
unfoldable pub deref : Option ℕ → Cmd Kernel ℕ
deref none k = halt faulted
deref (some p) k = ok p k

abbrev pub write_proc : ℕ → Process → Kernel → Kernel
write_proc i p k = record k { procs = λ j. if j == i then p else k.procs j }

unfoldable pub load : ℕ → Cmd Kernel ℕ
load a k = ok (k.mem a) k

abbrev pub write_mem : ℕ → ℕ → Kernel → Kernel
write_mem a v k = record k { mem = λ b. if b == a then v else k.mem b }

unfoldable pub store : ℕ → ℕ → Cmd Kernel (Unit {0})
store a v k = ok tt (write_mem a v k)

-- memset(a, 0, len) and memcpy(dst, src, len) on whole words that do not overlap.
unfoldable pub zero_words : ℕ → ℕ → Cmd Kernel (Unit {0})
zero_words a len k =
    ok tt (record k { mem = λ b. if leb a b && ltb b (a + len) then 0 else k.mem b })

unfoldable pub copy_words : ℕ → ℕ → ℕ → Cmd Kernel (Unit {0})
copy_words dst src len k = ok tt (record k {
  mem = λ b. if leb dst b && ltb b (dst + len) then k.mem (src + (b - dst)) else k.mem b;
})

-- A command of the page allocator within the kernel.
unfoldable pub on_pmm_result : {A : Type 0} → Kernel → Run Pmm A → Run Kernel A
on_pmm_result k (ok a m) = ok a (record k { pmm = m })
on_pmm_result k (to_user m) = to_user (record k { pmm = m })
on_pmm_result k (halt h) = halt h

unfoldable pub on_pmm : {A : Type 0} → Cmd Pmm A → Cmd Kernel A
on_pmm c k = on_pmm_result k (c k.pmm)
