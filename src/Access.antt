-- ===== src/Access.antt =====
-- The client's access to the virtual memory, working/vmaccess.c. `kill` runs the manager's signal
-- handler to its end before `sem_wait` is looked at: the semaphore starts at 0, so that
-- `sem_wait` cannot return before the handler has posted.
pub mod Ready
pub mod Cells
pub mod Refine
use suse_vm.Prelude.{
  ℕ, suc, ◌+◌, ◌-◌, ◌*◌, ◌/◌, ◌%◌, Bool, true, false, if◌then◌else◌, ◌==◌, ℤ, pos, negsuc, sub_ℕ,
}
use suse_vm.Vmem.Sizes.{page_size}
use suse_vm.Vmem.Flags.{present, changed, usedbit1, usedbit2, has, set_flag}
use suse_vm.Vmem.State.{sigusr1, sigusr2}
use suse_vm.Vmem.Os.{Mapping, null, map_failed, mapped, OsReply}
use suse_vm.Vmem.Run.{ok, Cmd, pure, fail, exit_failure, out_of_bounds, blocked, ◌>>=◌, ◌>>◌}
use suse_vm.Vmem.Cells.{get_adm, put_adm, entry_at, put_entry, cell_at, put_cell}
use suse_vm.Manager.Replace.{Algorithm}
use suse_vm.Manager.Signals.{sighandler}

-- how the manager was compiled, and what the system answers when the client maps the memory
pub record Config : Type 0 where
  pub algorithm : Algorithm
  pub os : OsReply

abbrev pub is_zero : ℤ → Bool
is_zero (pos n) = n == 0
is_zero (negsuc n) = false

abbrev pub is_minus_one : ℤ → Bool
is_minus_one (pos n) = false
is_minus_one (negsuc n) = n == 0

-- The end of `vm_init`. Through `MAP_FAILED` the next access of the caller faults.
unfoldable pub attach : Mapping → Cmd (Unit {0})
attach null = fail exit_failure
attach map_failed = fail out_of_bounds
attach mapped = λ w. ok tt (record w { attached = true })

-- `vm_init`
unfoldable pub vm_init : OsReply → Cmd (Unit {0})
unfolding attach
vm_init os =
    if is_zero os.fd
    then fail exit_failure
    else (if is_minus_one os.truncated then fail exit_failure else attach os.mapping)

-- `vm_init_if_not_ready`
unfoldable pub vm_init_if_not_ready : OsReply → Cmd (Unit {0})
unfolding vm_init
vm_init_if_not_ready os w = if w.attached then ok tt w else vm_init os w

-- `sem_wait(&vmem->adm.sema)`
unfoldable pub sem_wait : Cmd (Unit {0})
sem_wait = do
  a ← get_adm
  if a.sema == 0 then fail blocked else put_adm (record a { sema = a.sema - 1 })

-- `countUsed`
unfoldable pub count_used : ℤ → Cmd (Unit {0})
count_used page = do
  e ← entry_at page
  if has e.flags usedbit1
      then put_entry page (record e { flags = set_flag e.flags usedbit2 })
      else pure tt
  e' ← entry_at page
  put_entry page (record e' { flags = set_flag e'.flags usedbit1 })

-- `frame * VMEM_PAGESIZE + offset`
abbrev pub index_of : ℤ → ℕ → ℤ
index_of (pos f) offset = pos (f * page_size + offset)
index_of (negsuc n) offset = sub_ℕ offset (suc n * page_size)

-- `calcIndexFromPageOffset`
unfoldable pub calc_index_from_page_offset : ℤ → ℕ → Cmd ℤ
calc_index_from_page_offset page offset = do e ← entry_at page; pure (index_of e.frame offset)

-- `read_page`
unfoldable pub read_page : ℤ → ℕ → Cmd ℤ
unfolding count_used calc_index_from_page_offset
read_page page offset = do
  count_used page
  index ← calc_index_from_page_offset page offset
  cell_at index

-- `write_page`; `value` is the parameter `data`
unfoldable pub write_page : ℤ → ℕ → ℤ → Cmd (Unit {0})
unfolding count_used calc_index_from_page_offset
write_page page offset value = do
  count_used page
  e ← entry_at page
  put_entry page (record e { flags = set_flag e.flags changed })
  index ← calc_index_from_page_offset page offset
  put_cell index value

module _ (c : Config) where
  -- `if (!is_loaded) { kill(vmem->adm.mmanage_pid, SIGUSR1); sem_wait(&vmem->adm.sema); }`
  unfoldable pub load_if_absent : (flags : ℕ) → Cmd (Unit {0})
  load_if_absent flags =
      if has flags present then pure tt else (sighandler c.algorithm sigusr1 >> sem_wait)

  -- what `vmem_read` and `vmem_write` do before the access: note the page, and have it loaded
  unfoldable pub request_page : ℤ → Cmd (Unit {0})
  request_page page = do
    vm_init_if_not_ready c.os
    a ← get_adm
    put_adm (record a { req_pageno = page })
    e ← entry_at page
    load_if_absent e.flags

  -- `vmem_read`, on an address that is not negative
  unfoldable pub vmem_read : ℕ → Cmd ℤ
  vmem_read address = do
    request_page (pos (address / page_size))
    read_page (pos (address / page_size)) (address % page_size)

  -- `vmem_write`
  unfoldable pub vmem_write : ℕ → ℤ → Cmd (Unit {0})
  vmem_write address value = do
    request_page (pos (address / page_size))
    write_page (pos (address / page_size)) (address % page_size) value

-- `dump`: the manager prints, and its handler changes nothing but the signal number.
unfoldable pub dump : Algorithm → Cmd (Unit {0})
dump alg = sighandler alg sigusr2
