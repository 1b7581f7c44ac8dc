-- ===== src/Early/Paging.antt =====
-- A page fault in Aufgabe3/mmanage.c, and the loop that waits for signals.
use suse_vm.Prelude.{if◌then◌else◌, ◌==◌, ℤ, List, [], ◌∷◌}
use suse_vm.Vmem.Sizes.{page_size}
use suse_vm.Vmem.State.{LogEvent, Signal, none_pending, sigusr1, sigusr2, sigint}
use suse_vm.Vmem.Run.{Cmd, pure, fail, exit_failure, ◌>>=◌, ◌>>◌}
use suse_vm.Vmem.Cells.{get_adm, entry_at, framepage_at}
use suse_vm.Vmem.Pagefile.{seek_page, fwrite}
use suse_vm.Manager.Replace.{Algorithm}
use suse_vm.Manager.Paging
use suse_vm.Manager.Paging.{block, count_fault, sem_post}
use suse_vm.Manager.Signals
use suse_vm.Manager.Signals.{LoopState, waiting, quit}
use suse_vm.Early.Replace.{vmem_is_full, find_remove_frame}

-- `fetch_page`, `update_pt` and `logger` do what those of working/ do.
abbrev pub fetch_page : ℤ → Cmd (Unit {0})
fetch_page page = Paging.fetch_page page

abbrev pub update_pt : ℤ → Cmd (Unit {0})
update_pt frame = Paging.update_pt frame

abbrev pub logger : LogEvent → Cmd (Unit {0})
logger le = Paging.logger le

-- `store_page`: every page is written.
unfoldable pub store_page : ℤ → Cmd (Unit {0})
store_page page = do
  e ← entry_at page
  seek_page page
  written_ints ← fwrite (block e.frame) page_size
  if written_ints == page_size then pure tt else fail exit_failure

-- `page_fault` from the choice of the frame on
unfoldable pub exchange_page : (new_frame req_page : ℤ) → Cmd (Unit {0})
unfolding store_page
exchange_page new_frame req_page = do
  page_unloaded ← framepage_at new_frame
  full ← vmem_is_full
  if full then store_page page_unloaded else pure tt
  update_pt new_frame
  fetch_page req_page
  a ← get_adm
  logger (record {
    req_pageno = a.req_pageno;
    replaced_page = page_unloaded;
    alloc_frame = new_frame;
    pf_count = a.pf_count;
    g_count = a.pf_count;
  })
  sem_post

-- `page_fault`
unfoldable pub page_fault : Algorithm → Cmd (Unit {0})
unfolding exchange_page
page_fault alg = do
  a ← get_adm
  count_fault
  new_frame ← find_remove_frame alg
  exchange_page new_frame a.req_pageno

-- `save_sig_no`
abbrev pub save_sig_no : Signal → Cmd (Unit {0})
save_sig_no signo = Signals.set_signal signo

-- `noticed`
abbrev pub noticed : Cmd (Unit {0})
noticed = save_sig_no none_pending

-- what `signal_proccessing_loop` does with the signal number that it finds after `pause`
unfoldable pub after_pause : Algorithm → Signal → Cmd LoopState
unfolding page_fault
after_pause alg sigusr1 = noticed >> page_fault alg >> pure waiting
after_pause alg sigusr2 = noticed >> pure waiting
after_pause alg sigint = noticed >> pure quit
after_pause alg _ = save_sig_no none_pending >> pure waiting

-- `signal_proccessing_loop`, one signal for each `pause`
unfoldable pub signal_processing_loop : Algorithm → List Signal → Cmd LoopState
unfolding after_pause
signal_processing_loop alg [] = save_sig_no none_pending >> pure waiting
signal_processing_loop alg (s ∷ signals) = do
  save_sig_no none_pending
  save_sig_no s
  state ← λ w. after_pause alg w.signal_number w
  elim state [ quit ↦ pure quit | waiting ↦ signal_processing_loop alg signals ]
