-- ===== src/Vmem/Sizes.antt =====
-- The sizes of working/vmem.h, in ints, and the index that stands for no page and no frame.
use suse_vm.Prelude.{ℕ, ◌/◌, ℤ, negsuc}

abbrev pub virtmem_size : ℕ
virtmem_size = 1024

abbrev pub physmem_size : ℕ
physmem_size = 128

abbrev pub page_size : ℕ
page_size = 8

abbrev pub npages : ℕ
npages = virtmem_size / page_size

abbrev pub nframes : ℕ
nframes = physmem_size / page_size

-- `VOID_IDX` of working/mmanage.h, -1
abbrev pub void_idx : ℤ
void_idx = negsuc 0
