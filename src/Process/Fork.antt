-- ===== src/Process/Fork.antt =====
-- do_fork of kernel/process.c.
use pke.Base.{
  ℕ, zero, suc, ◌+◌, ◌-◌, ◌*◌, ◌%◌, ◌^◌, true, false, ◌==◌, not, if◌then◌else◌, some, Cmd, faulted,
  panicked, get, pure, modify, ensure, ◌>>=◌, ◌>>◌, bit_and, bit_or,
}
use pke.Pmm.State.{page_size}
use pke.Kernel.{ProcStatus, Kernel, write_proc, load, store, copy_words}
use pke.Sched.Next.{Image}
use pke.Sched.Queue.{insert_to_ready_queue}
use pke.Vmm.Pte.{prot_to_type, prot_read, prot_exec, pte_v, pte_w, pte_cow, has_flag, pte_to_pa}
use pke.Vmm.Walk.{page_walk}
use pke.Vmm.Maps.{lookup_pa, user_vm_map}
use pke.Process.Pool.{
  stack_segment, context_segment, heap_segment, code_segment, region_va, region_npages,
  region_seg_type, write_region, update_proc, alloc_process,
}
use pke.Trapframe

-- An entry that may be written loses PTE_W and is marked PTE_COW.
unfoldable pub cow_entry : ℕ → ℕ
unfolding has_flag
cow_entry w = if has_flag w pte_w then bit_or (bit_and w (2 ^ 64 - 1 - pte_w)) pte_cow else w

-- get_page is declared nowhere in the sources: it is what the platform makes of it.
module _ (im : Image) (get_page : ℕ → Cmd Kernel (Unit {0})) where
  -- The entry of one page, when it is valid, is shared with the child.
  unfoldable pub share_entry : ℕ → ℕ → ℕ → Cmd Kernel (Unit {0})
  share_entry child_table va pte = do
    w ← load pte
    (if not (has_flag w pte_v) then pure tt else do
      store pte (cow_entry w)
      get_page (pte_to_pa (cow_entry w))
      c_pte ← page_walk child_table va 0 true
      ensure (not (c_pte == 0)) panicked
      w' ← load pte
      store c_pte w')

  -- The loop over the pages of a stack or heap region, with the pages left.
  unfoldable pub share_pages : ℕ → ℕ → ℕ → ℕ → ℕ → Cmd Kernel (Unit {0})
  share_pages zero parent_table child_table va page_number = pure tt
  share_pages (suc rounds) parent_table child_table va page_number = do
    let here = (va + page_number * page_size % 2 ^ 32) % 2 ^ 64
    pte ← page_walk parent_table here 0 false
    ensure (not (pte == 0)) faulted
    share_entry child_table here pte
    share_pages rounds parent_table child_table va (page_number + 1)

  -- The loop over the pages of a code region.
  unfoldable pub map_code : ℕ → ℕ → ℕ → ℕ → ℕ → Cmd Kernel (Unit {0})
  map_code zero parent_table child_table va current_page = pure tt
  map_code (suc rounds) parent_table child_table va current_page = do
    let here = (va + current_page * page_size % 2 ^ 32) % 2 ^ 64
    pa ← lookup_pa parent_table here
    user_vm_map child_table here page_size pa (prot_to_type (bit_or prot_read prot_exec) true)
    map_code rounds parent_table child_table va (current_page + 1)

  unfoldable pub fork_shared : ℕ → ℕ → ℕ → ℕ → Cmd Kernel (Unit {0})
  fork_shared parent child i seg_type = do
    k ← get
    va ← region_va (k.procs parent).mapped_info i
    npages ← region_npages (k.procs parent).mapped_info i
    share_pages npages (k.procs parent).pagetable (k.procs child).pagetable va 0
    (if seg_type == heap_segment
        then modify (λ k.
          write_proc child (record (k.procs child) { user_heap = (k.procs parent).user_heap }) k)
        else pure tt)

  -- The message before the loop looks the first page up.
  unfoldable pub fork_code : ℕ → ℕ → ℕ → Cmd Kernel (Unit {0})
  fork_code parent child i = do
    k ← get
    let info = (k.procs parent).mapped_info
    va ← region_va info i
    npages ← region_npages info i
    printed ← lookup_pa (k.procs parent).pagetable va
    map_code npages (k.procs parent).pagetable (k.procs child).pagetable va 0
    write_region (k.procs child).mapped_info (k.procs child).total_mapped_region va npages
        code_segment
    update_proc child (λ p. record p { total_mapped_region = p.total_mapped_region + 1 })

  -- The body of the loop over the regions; a region of another type is left out.
  unfoldable pub fork_region : ℕ → ℕ → ℕ → Cmd Kernel (Unit {0})
  fork_region parent child i = do
    k ← get
    seg_type ← region_seg_type (k.procs parent).mapped_info i
    (if seg_type == context_segment
        then copy_words (k.procs child).trapframe (k.procs parent).trapframe Trapframe.size
        else if seg_type == stack_segment
        then fork_shared parent child i seg_type
        else if seg_type == heap_segment
        then fork_shared parent child i seg_type
        else if seg_type == code_segment
        then fork_code parent child i
        else pure tt)

  -- `for (i = 0; i < parent->total_mapped_region; i++)`, with the regions left.
  unfoldable pub fork_regions : ℕ → ℕ → ℕ → ℕ → Cmd Kernel (Unit {0})
  fork_regions zero parent child i = pure tt
  fork_regions (suc rounds) parent child i = do
    fork_region parent child i
    fork_regions rounds parent child (i + 1)

  -- The child gets its own pointer in tp and 0 in a0, and waits in the ready queue.
  unfoldable pub finish_fork : ℕ → ℕ → Cmd Kernel ℕ
  finish_fork parent child = do
    k ← get
    let frame = (k.procs child).trapframe
    store (frame + Trapframe.tp) ((im.procs_addr + child * im.process_size) % 2 ^ 64)
    update_proc child (λ p. record p { status = ProcStatus.ready })
    store (frame + Trapframe.a 0) 0
    update_proc child (λ p. record p { parent = some parent })
    insert_to_ready_queue child
    t ← get
    pure (t.procs child).pid

  unfoldable pub do_fork : ℕ → Cmd Kernel ℕ
  do_fork parent = do
    child ← alloc_process im
    k ← get
    fork_regions (k.procs parent).total_mapped_region parent child 0
    finish_fork parent child
