-- ===== src/Probe/Paging.antt =====
-- A page fault in probe/mmanage.c: what `sighandler` does on SIGUSR1, and what it calls.
use suse_vm.Prelude.{Bool, if◌then◌else◌, ◌==◌, ℤ, ◌∷◌}
use suse_vm.Vmem.Sizes.{page_size, void_idx}
use suse_vm.Vmem.Flags.{Flag, present, changed, usedbit1, has, set_flag, clear_flag}
use suse_vm.Vmem.State.{LogEvent}
use suse_vm.Vmem.Run.{ok, pure, fail, exit_failure, ◌>>=◌, ◌>>◌}
use suse_vm.Vmem.Pagefile
use suse_vm.Manager.Paging.{block}
use suse_vm.Manager.Paging
use suse_vm.Probe.State.{Abi, World, Cmd, on_base}
use suse_vm.Probe.Cells.{get_adm, framepage_at, put_framepage, entry_at, put_entry}
use suse_vm.Probe.Replace.{Algorithm, find_remove_frame}

-- `vmem->adm.pf_count++`, `sem_post` and `fseek` are those of working/mmanage.c.
abbrev pub count_fault : Cmd (Unit {0})
count_fault = on_base Paging.count_fault

abbrev pub sem_post : Cmd (Unit {0})
sem_post = on_base Paging.sem_post

abbrev pub seek_page : ℤ → Cmd (Unit {0})
seek_page page = on_base (Pagefile.seek_page page)

-- `logger`
unfoldable pub logger : LogEvent → Cmd (Unit {0})
logger le w = ok tt (record w { base = record w.base { logfile = le ∷ w.base.logfile } })

-- the globals `data_full` and `vmem->adm.g_count`
abbrev pub get_world : Cmd World
get_world w = ok w w

module _ (abi : Abi) where
  -- `store_page`
  unfoldable pub store_page : ℤ → Cmd (Unit {0})
  store_page pt_idx = do
    e ← entry_at abi pt_idx
    seek_page pt_idx
    count ← on_base (Pagefile.fwrite (block e.frame) page_size)
    if count == page_size then pure tt else fail exit_failure

  -- `fetch_page`
  unfoldable pub fetch_page : ℤ → Cmd (Unit {0})
  fetch_page pt_idx = do
    e ← entry_at abi pt_idx
    seek_page pt_idx
    count ← on_base (Pagefile.fread (block e.frame) page_size)
    if count == page_size then pure tt else fail exit_failure

  -- `vmem->pt.entries[page].flags &= ~PTF`
  unfoldable pub drop_flag : Flag → ℤ → Cmd (Unit {0})
  drop_flag g page = do
    e ← entry_at abi page
    put_entry abi page (record e { flags = clear_flag e.flags g })

  -- the first half of `update_pt`: the old page's entry
  unfoldable pub take_away : ℤ → Cmd (Unit {0})
  unfolding drop_flag
  take_away oldpage = do
    drop_flag present oldpage
    drop_flag changed oldpage
    drop_flag usedbit1 oldpage
    e ← entry_at abi oldpage
    put_entry abi oldpage (record e { frame = void_idx })

  -- the second half: the requested page's entry
  unfoldable pub bring_in : (frame req_pageno : ℤ) → Cmd (Unit {0})
  bring_in frame req_pageno = do
    put_framepage frame req_pageno
    e ← entry_at abi req_pageno
    put_entry abi req_pageno (record e { frame = frame })
    e' ← entry_at abi req_pageno
    put_entry abi req_pageno (record e' { flags = set_flag e'.flags present })

  -- `update_pt`
  unfoldable pub update_pt : ℤ → Cmd (Unit {0})
  unfolding take_away bring_in
  update_pt frame = do
    oldpage ← framepage_at frame
    take_away oldpage
    a ← get_adm
    bring_in frame a.req_pageno

  -- `if(data_full) { if(… & PTF_DIRTY) store_page(…); }`
  unfoldable pub store_when : Bool → ℤ → Cmd (Unit {0})
  unfolding store_page
  store_when full oldpage =
      if full
      then (do
        e ← entry_at abi oldpage
        if has e.flags changed then store_page oldpage else pure tt)
      else pure tt

  unfoldable pub store_if_changed : ℤ → Cmd (Unit {0})
  store_if_changed oldpage = do w ← get_world; store_when w.data_full oldpage

  -- what `sighandler` does on SIGUSR1 once it has a frame
  unfoldable pub exchange_page : ℤ → Cmd (Unit {0})
  unfolding update_pt fetch_page logger store_if_changed
  exchange_page frame = do
    oldpage ← framepage_at frame
    store_if_changed oldpage
    update_pt frame
    a ← get_adm
    fetch_page a.req_pageno
    w ← get_world
    logger (record {
      req_pageno = w.base.vmem.adm.req_pageno;
      replaced_page = oldpage;
      alloc_frame = frame;
      pf_count = w.base.vmem.adm.pf_count;
      g_count = w.g_count;
    })
    sem_post

  -- `sighandler` on SIGUSR1
  unfoldable pub page_fault : Algorithm → Cmd (Unit {0})
  unfolding exchange_page
  page_fault alg = do count_fault; frame ← find_remove_frame abi alg; exchange_page frame
