-- ===== src/Tests/Runs.antt =====
-- Whole runs: the log that working/logs/fifo.txt begins with, and reads after writes.
use suse_vm.Prelude.{ℕ, zero, suc, ◌*◌, ◌≡◌, refl, List, [], ◌∷◌, ℤ, pos, map, update, blit}
use suse_vm.Vmem.Sizes.{void_idx}
use suse_vm.Vmem.Flags.{has, set_flag, clear_flag}
use suse_vm.Vmem.State.{World, LogEvent}
use suse_vm.Vmem.Run.{Run, ok, stop, ◌>>◌}
use suse_vm.Vmem.Cells.{entry_at, put_entry, framepage_at, put_framepage, cell_at, put_cell}
use suse_vm.Vmem.Pagefile.{run_length, seek_page, fread, fwrite}
use suse_vm.Manager.Replace.{
  Algorithm, fifo, clock2, clock2_loop, use_algorithm, find_remove_fifo, find_remove_clock2,
  find_remove_frame, frames_are_occupied,
}
use suse_vm.Manager.Paging.{
  store_page, fetch_page, update_unload, update_load, enter_page, update_pt, logger, count_fault,
  sem_post, exchange_page, page_fault,
}
use suse_vm.Manager.Signals.{sighandler, case_page_fault, noticed}
use suse_vm.Manager.Boot.{init_pagefile, open_logfile, vmem_init, fill_vmem}
use suse_vm.Manager.Main.{start, install_handler}
use suse_vm.Flat.{Op, read, write}
use suse_vm.Access.{
  vmem_read, vmem_write, request_page, load_if_absent, vm_init_if_not_ready, sem_wait, read_page,
  write_page,
}
use suse_vm.Access.Refine.{run}
use suse_vm.Tests.Worlds.{setup, config, raw}

abbrev log_of : Run World (List ℤ) → List (ℤ × ℤ × ℕ)
log_of (ok _ w) = map (λ (e : LogEvent). (e.replaced_page, e.alloc_frame, e.pf_count)) w.logfile
log_of (stop e) = []

abbrev replies_of : Run World (List ℤ) → List ℤ
replies_of (ok xs w) = xs
replies_of (stop e) = []

-- one read from each of the first `n` pages, before `ops`
abbrev sweep_pages : ℕ → List Op → List Op
sweep_pages zero ops = ops
sweep_pages (suc n) ops = sweep_pages n (read (n * 8) ∷ ops)

abbrev session : Algorithm → List Op → Run World (List ℤ)
session alg ops = (start (setup alg) >> run (config alg) ops) raw

-- While frames are free the log shows page fault 0, as in working/logs/fifo.txt, lines 1 to 36.
fifo_log :
    log_of (session fifo (sweep_pages 18 []))
    ≡ (pos 1, pos 1, 2)
      ∷ (pos 0, pos 0, 1)
      ∷ (void_idx, pos 15, 0)
      ∷ (void_idx, pos 14, 0)
      ∷ (void_idx, pos 13, 0)
      ∷ (void_idx, pos 12, 0)
      ∷ (void_idx, pos 11, 0)
      ∷ (void_idx, pos 10, 0)
      ∷ (void_idx, pos 9, 0)
      ∷ (void_idx, pos 8, 0)
      ∷ (void_idx, pos 7, 0)
      ∷ (void_idx, pos 6, 0)
      ∷ (void_idx, pos 5, 0)
      ∷ (void_idx, pos 4, 0)
      ∷ (void_idx, pos 3, 0)
      ∷ (void_idx, pos 2, 0)
      ∷ (void_idx, pos 1, 0)
      ∷ (void_idx, pos 0, 0)
      ∷ []
unfolding start init_pagefile open_logfile vmem_init install_handler update blit run_length run
    vmem_read vmem_write request_page load_if_absent vm_init_if_not_ready sem_wait read_page
    sighandler case_page_fault noticed page_fault count_fault find_remove_frame frames_are_occupied
    use_algorithm find_remove_fifo exchange_page store_page update_pt update_unload update_load
    enter_page fetch_page seek_page fread fwrite logger sem_post entry_at put_entry framepage_at
    put_framepage cell_at put_cell has set_flag clear_flag fill_vmem
fifo_log = refl

-- A page that was written, replaced and loaded again holds what was written.
clock2_values :
    replies_of (session clock2 (write 5 (pos 42) ∷ sweep_pages 17 (read 5 ∷ [])))
    ≡ pos 3
      ∷ pos 59
      ∷ pos 115
      ∷ pos 48
      ∷ pos 104
      ∷ pos 37
      ∷ pos 93
      ∷ pos 26
      ∷ pos 82
      ∷ pos 15
      ∷ pos 71
      ∷ pos 4
      ∷ pos 60
      ∷ pos 116
      ∷ pos 49
      ∷ pos 105
      ∷ pos 38
      ∷ pos 42
      ∷ []
unfolding start init_pagefile open_logfile vmem_init install_handler update blit run_length run
    vmem_read vmem_write request_page load_if_absent vm_init_if_not_ready sem_wait read_page
    write_page sighandler case_page_fault noticed page_fault count_fault find_remove_frame
    frames_are_occupied use_algorithm find_remove_clock2 clock2_loop exchange_page store_page
    update_pt update_unload update_load enter_page fetch_page seek_page fread fwrite logger sem_post
    entry_at put_entry framepage_at put_framepage cell_at put_cell has set_flag clear_flag fill_vmem
clock2_values = refl
