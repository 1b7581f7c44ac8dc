-- ===== src/Early/Access.antt =====
-- The client's access in Aufgabe3/vmaccess.c. The manager serves a fault outside of its signal handler,
-- before or after the client looks at the semaphore.
use suse_vm.Prelude.{ℕ, ◌/◌, ◌%◌, Bool, ◌==◌, if◌then◌else◌, ℤ, pos}
use suse_vm.Vmem.Sizes.{page_size}
use suse_vm.Vmem.Flags.{present, has}
use suse_vm.Vmem.State.{sigusr1}
use suse_vm.Vmem.Run.{Cmd, pure, ◌>>=◌, ◌>>◌}
use suse_vm.Vmem.Cells.{get_adm, put_adm, entry_at, cell_at, put_cell}
use suse_vm.Manager.Signals.{LoopState}
use suse_vm.Access
use suse_vm.Access.{Config, sem_wait}
use suse_vm.Vmem.Os.{OsReply}
use suse_vm.Early.Paging.{save_sig_no, after_pause}

-- `vm_init_if_not_ready`, `countUsed` and `calcIndexFromPageOffset` do what those of working/ do.
abbrev pub vm_init_if_not_ready : OsReply → Cmd (Unit {0})
vm_init_if_not_ready os = Access.vm_init_if_not_ready os

abbrev pub count_used : ℤ → Cmd (Unit {0})
count_used page = Access.count_used page

abbrev pub calc_index_from_page_offset : ℤ → ℕ → Cmd ℤ
calc_index_from_page_offset page offset = Access.calc_index_from_page_offset page offset

-- `read_page`
unfoldable pub read_page : ℤ → ℕ → Cmd ℤ
read_page page offset = do
  count_used page
  index ← calc_index_from_page_offset page offset
  cell_at index

-- `write_page`: the page is not marked as changed; `value` is the parameter `data`
unfoldable pub write_page : ℤ → ℕ → ℤ → Cmd (Unit {0})
write_page page offset value = do
  count_used page
  index ← calc_index_from_page_offset page offset
  put_cell index value

module _ (c : Config) (manager_first : Bool) where
  -- the manager wakes from `pause` and deals with the signal
  abbrev pub serve : Cmd LoopState
  serve = λ w. after_pause c.algorithm w.signal_number w

  -- `sem_wait` of a client whom the manager has not served: at 0 the client sleeps, and the manager
  -- serves him.
  unfoldable pub wait_unserved : Cmd (Unit {0})
  wait_unserved = do a ← get_adm; if a.sema == 0 then (serve >> sem_wait) else sem_wait

  -- `kill(vmem->adm.mmanage_pid, SIGUSR1); sem_wait(&vmem->adm.sema);`, if the page is not loaded
  unfoldable pub load_if_absent : (flags : ℕ) → Cmd (Unit {0})
  unfolding wait_unserved
  load_if_absent flags =
      if has flags present
      then pure tt
      else save_sig_no sigusr1 >> (if manager_first then (serve >> sem_wait) else wait_unserved)

  unfoldable pub request_page : (page : ℕ) → Cmd (Unit {0})
  unfolding load_if_absent
  request_page page = do
    vm_init_if_not_ready c.os
    a ← get_adm
    put_adm (record a { req_pageno = pos page })
    e ← entry_at (pos page)
    load_if_absent e.flags

  -- `vmem_read`, on an address that is not negative
  unfoldable pub vmem_read : ℕ → Cmd ℤ
  unfolding request_page read_page
  vmem_read address = do
    request_page (address / page_size)
    read_page (pos (address / page_size)) (address % page_size)

  -- `vmem_write`
  unfoldable pub vmem_write : ℕ → ℤ → Cmd (Unit {0})
  unfolding request_page write_page
  vmem_write address value = do
    request_page (address / page_size)
    write_page (pos (address / page_size)) (address % page_size) value
