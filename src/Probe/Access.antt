-- ===== src/Probe/Access.antt =====
-- Signals to the manager in probe/mmanage.c, and the client's access in probe/vmaccess.c. `kill` runs
-- the handler to its end before the second `sem_wait` is looked at: the first one has left 0.
use suse_vm.Prelude.{ℕ, ◌/◌, ◌%◌, if◌then◌else◌, ℤ, pos, List, [], ◌∷◌}
use suse_vm.Vmem.Sizes.{page_size}
use suse_vm.Vmem.Flags.{Flag, present, changed, usedbit1, has, set_flag}
use suse_vm.Vmem.State.{Signal, sigusr1, sigusr2, sigint}
use suse_vm.Vmem.Os.{OsReply}
use suse_vm.Vmem.Run.{ok, pure, ◌>>=◌, ◌>>◌}
use suse_vm.Vmem.Pagefile.{run_length, readable}
use suse_vm.Vmem.Cells
use suse_vm.Manager.Signals.{LoopState, waiting, quit}
use suse_vm.Access
use suse_vm.Access.{index_of}
use suse_vm.Probe.State.{Abi, Cmd, on_base}
use suse_vm.Probe.Cells.{get_adm, put_adm, entry_at, put_entry, raise_count}
use suse_vm.Probe.Replace.{Algorithm}
use suse_vm.Probe.Paging.{page_fault, sem_post}

-- how the manager was compiled, and what the system answers when the client maps the memory
pub record Config : Type 0 where
  pub abi : Abi
  pub algorithm : Algorithm
  pub os : OsReply

-- The dump on SIGUSR2 prints; after `rewind` it has read the first 300 ints of the page file.
unfoldable pub dump : Cmd (Unit {0})
dump w = ok tt (record w {
  base = record w.base {
    pagefile = record w.base.pagefile { position = run_length (readable w.base.pagefile) 0 300 };
  };
})

-- `sighandler`; on SIGINT the process ends
unfoldable pub sighandler : Abi → Algorithm → Signal → Cmd LoopState
sighandler abi alg sigusr1 = page_fault abi alg >> pure waiting
sighandler abi alg sigusr2 = dump >> pure waiting
sighandler abi alg sigint = pure quit
sighandler abi alg _ = pure waiting

-- The loop of `main`, one signal for each `pause`: `signal_number` stays 0, so that it only waits.
unfoldable pub signal_loop : Abi → Algorithm → List Signal → Cmd LoopState
signal_loop abi alg [] = pure waiting
signal_loop abi alg (s ∷ signals) = do
  state ← sighandler abi alg s
  elim state [ quit ↦ pure quit | waiting ↦ signal_loop abi alg signals ]

-- `if(vmem == NULL) vm_init()`, as in working/vmaccess.c
abbrev pub vm_init_if_not_ready : OsReply → Cmd (Unit {0})
vm_init_if_not_ready os = on_base (Access.vm_init_if_not_ready os)

abbrev pub sem_wait : Cmd (Unit {0})
sem_wait = on_base Access.sem_wait

module _ (c : Config) where
  -- `vmem->pt.entries[page].flags |= PTF`
  unfoldable pub raise_flag : Flag → ℕ → Cmd (Unit {0})
  raise_flag g page = do
    e ← entry_at c.abi (pos page)
    put_entry c.abi (pos page) (record e { flags = set_flag e.flags g })

  unfoldable pub read_page : (page offset : ℕ) → Cmd ℤ
  unfolding raise_flag
  read_page page offset = do
    raise_count page
    raise_flag usedbit1 page
    e ← entry_at c.abi (pos page)
    on_base (Cells.cell_at (index_of e.frame offset))

  -- `value` is the parameter `data`
  unfoldable pub write_page : (page offset : ℕ) → (value : ℤ) → Cmd (Unit {0})
  unfolding raise_flag
  write_page page offset value = do
    e ← entry_at c.abi (pos page)
    on_base (Cells.put_cell (index_of e.frame offset) value)
    raise_flag usedbit1 page
    raise_flag changed page

  -- `kill(…, SIGUSR1); sem_wait(…)`, if the page is not there
  unfoldable pub load_if_absent : (flags : ℕ) → Cmd (Unit {0})
  load_if_absent flags =
      if has flags present then pure tt else (sighandler c.abi c.algorithm sigusr1 >> sem_wait)

  -- `vmem_read` and `vmem_write` before the access
  unfoldable pub request_page : (page : ℕ) → Cmd (Unit {0})
  unfolding load_if_absent
  request_page page = do
    vm_init_if_not_ready c.os
    a ← get_adm
    put_adm (record a { req_pageno = pos page })
    sem_wait
    e ← entry_at c.abi (pos page)
    load_if_absent e.flags

  -- `vmem_read`, on an address that is not negative
  unfoldable pub vmem_read : ℕ → Cmd ℤ
  unfolding request_page read_page
  vmem_read address = do
    request_page (address / page_size)
    x ← read_page (address / page_size) (address % page_size)
    sem_post
    pure x

  -- `vmem_write`
  unfoldable pub vmem_write : ℕ → ℤ → Cmd (Unit {0})
  unfolding request_page write_page
  vmem_write address value = do
    request_page (address / page_size)
    write_page (address / page_size) (address % page_size) value
    sem_post
