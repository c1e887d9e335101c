-- ===== src/Vmm/KernelMap.antt =====
-- kern_vm_init of kernel/vmm.c.
use pke.Base.{
  ℕ, ◌+◌, ◌-◌, ◌==◌, false, not, bit_or, Cmd, panicked, ensure, modify, ◌>>=◌, ◌>>◌, ◌*◌,
}
use pke.Pmm.State.{page_size, dram_base}
use pke.Pmm.Cache.{alloc_page}
use pke.Kernel.{Kernel, zero_words, on_pmm}
use pke.Vmm.Pte.{prot_to_type, prot_read, prot_write, prot_exec}
use pke.Vmm.Maps.{kern_vm_map, lookup_pa}

abbrev pub kern_base : ℕ
kern_base = dram_base

-- PHYS_TOP of kernel/memlayout.h is the end of the memory that the kernel may use.
abbrev pub phys_top : ℕ
phys_top = dram_base + 128 * 1024 * 1024

-- `etext` is the address after the text segment, which the linker chooses. The two messages look
-- pages up.
unfoldable pub kern_vm_init : ℕ → Cmd Kernel (Unit {0})
kern_vm_init etext = do
  t_page_dir ← on_pmm alloc_page
  ensure (not (t_page_dir == 0)) panicked
  zero_words t_page_dir page_size
  kern_vm_map t_page_dir kern_base dram_base (etext - kern_base)
      (prot_to_type (bit_or prot_read prot_exec) false)
  text_pa ← lookup_pa t_page_dir kern_base
  kern_vm_map t_page_dir etext etext (phys_top - etext)
      (prot_to_type (bit_or prot_read prot_write) false)
  data_pa ← lookup_pa t_page_dir etext
  modify (λ k. record k { g_kernel_pagetable = t_page_dir })
