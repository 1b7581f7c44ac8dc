-- ===== src/Early/Race.antt =====
-- The client of Aufgabe3/vmaccess.c before the manager: the semaphore starts at 1, so that the first wait
-- is none.
use suse_vm.Prelude.{
  true, ◌%◌, ℕ, ◌-◌, ◌/◌, ◌<◌, ◌≡◌, refl, ◌∙◌, ap, false, leb, ◌==◌, pos, negsuc, update_self,
  arith,
}
use suse_vm.Vmem.Sizes.{page_size, npages, virtmem_size, void_idx}
use suse_vm.Vmem.Flags.{present, has}
use suse_vm.Vmem.State.{PtEntry, World, sigusr1}
use suse_vm.Vmem.Run.{stop, out_of_bounds}
use suse_vm.Vmem.Cells.{entry_at-ok, cell_at}
use suse_vm.Access
use suse_vm.Access.{Config, count_used, calc_index_from_page_offset, index_of}
use suse_vm.Manager.Signals.{set_signal}
use suse_vm.Vmem.Cells.{with_entries}
use suse_vm.Paging.Touch.{reflag}
use suse_vm.Access.Cells.{used_flags, count_used-ok}
use suse_vm.Access.Ready.{CanAttach, vm_init_if_not_ready-attaches}
use suse_vm.Access.Refine.{page_of-lt, offset-lt}
use suse_vm.Early.Access.{read_page, load_if_absent, request_page, wait_unserved, vmem_read}

-- the index before a cell of frame -1
before_cells : (k : ℕ) → k < page_size → index_of void_idx k ≡ negsuc (page_size - k - 1)
before_cells k h = let e : leb page_size k ≡ false = ground arith in rw e refl

-- In the page table as the start leaves it, an access to a page in no frame reads outside of the cells.
module _ (w : World) (p k : ℕ) (p_lt : p < npages) (k_lt : k < page_size)
    (nowhere : (w.vmem.pt.entries p).frame ≡ void_idx) where
  still_nowhere : (fl : ℕ) → (reflag w.vmem.pt.entries p fl p).frame ≡ void_idx
  still_nowhere fl =
      ap (λ (e : PtEntry). e.frame)
        (update_self w.vmem.pt.entries p (record (w.vmem.pt.entries p) { flags = fl }))
      ∙ nowhere

  read_page-out_of_bounds : read_page (pos p) k w ≡ stop out_of_bounds
  unfolding read_page calc_index_from_page_offset cell_at
  read_page-out_of_bounds =
      let fl : ℕ = used_flags (w.vmem.pt.entries p).flags in
      rw
        (
          count_used-ok p w p_lt,
          entry_at-ok p (with_entries w (reflag w.vmem.pt.entries p fl)) p_lt,
          still_nowhere fl,
          before_cells k k_lt,
        )
        refl

-- the state in which the client goes on
abbrev unserved : World → ℕ → World
unserved w p = record w {
  vmem = record w.vmem {
    adm = record w.vmem.adm { req_pageno = pos p; sema = w.vmem.adm.sema - 1 };
  };
  signal_number = sigusr1;
  attached = true;
}

-- If the semaphore is up, as it is from the start on, and the client looks at it before the manager has
-- served the request, then a read of any address below 1024 whose page is in no frame goes on without
-- waiting and reads outside of the cells.
pub vmem_read-unserved :
    (c : Config) (a : ℕ) (w : World)
    → a < virtmem_size
    → CanAttach c.os w
    → has (w.vmem.pt.entries (a / page_size)).flags present ≡ false
    → (w.vmem.pt.entries (a / page_size)).frame ≡ void_idx
    → 0 < w.vmem.adm.sema
    → vmem_read c false a w ≡ stop out_of_bounds
unfolding vmem_read request_page load_if_absent wait_unserved Access.sem_wait set_signal
vmem_read-unserved c a w in_range can absent nowhere up =
    let p : ℕ = a / page_size in
    let p_lt : p < npages = page_of-lt a in_range in
    let raised : (w.vmem.adm.sema == 0) ≡ false = ground arith in
    rw (vm_init_if_not_ready-attaches c.os w can, entry_at-ok p _ p_lt, absent, raised)
      (rw raised
        (read_page-out_of_bounds (unserved w p) p (a % page_size) p_lt (offset-lt a) nowhere))
