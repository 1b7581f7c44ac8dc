-- ===== src/Manager/Paging.antt =====
-- Moving pages between the page file and the frames in working/mmanage.c: `page_fault` and what
-- it calls.
use suse_vm.Prelude.{◌+◌, ◌-◌, ◌*◌, ◌%◌, ◌^◌, suc, if◌then◌else◌, ◌==◌, ℤ, pos, negsuc, ◌∷◌}
use suse_vm.Vmem.Sizes.{page_size, void_idx}
use suse_vm.Vmem.Flags.{present, changed, has, set_flag}
use suse_vm.Vmem.State.{LogEvent}
use suse_vm.Vmem.Run.{ok, Cmd, pure, fail, exit_failure, ◌>>=◌, ◌>>◌}
use suse_vm.Vmem.Cells.{get_adm, put_adm, entry_at, put_entry, framepage_at, put_framepage}
use suse_vm.Vmem.Pagefile.{seek_page, fread, fwrite}
use suse_vm.Manager.Replace.{Algorithm, frames_are_occupied, find_remove_frame}

-- `VMEM_PAGESIZE*frame`
abbrev pub block : ℤ → ℤ
block (pos f) = pos (f * page_size)
block (negsuc n) = negsuc (suc n * page_size - 1)

-- `store_page`: writes the page to the file if it was changed.
unfoldable pub store_page : ℤ → Cmd (Unit {0})
store_page page = do
  e ← entry_at page
  if has e.flags changed
      then (do
        seek_page page
        written ← fwrite (block e.frame) page_size
        if written == page_size then pure tt else fail exit_failure)
      else pure tt

-- `fetch_page`
unfoldable pub fetch_page : ℤ → Cmd (Unit {0})
fetch_page page = do
  e ← entry_at page
  seek_page page
  count ← fread (block e.frame) page_size
  if count == page_size then pure tt else fail exit_failure

-- `update_unload`, two stores into the one entry
unfoldable pub update_unload : ℤ → Cmd (Unit {0})
update_unload oldpage = do
  e ← entry_at oldpage
  put_entry oldpage (record e { flags = 0 })
  e' ← entry_at oldpage
  put_entry oldpage (record e' { frame = void_idx })

-- the stores of `update_load`
unfoldable pub enter_page : (req_page frame : ℤ) → Cmd (Unit {0})
enter_page req_page frame = do
  put_framepage frame req_page
  e ← entry_at req_page
  put_entry req_page (record e { frame = frame })
  e' ← entry_at req_page
  put_entry req_page (record e' { flags = set_flag e'.flags present })

-- `update_load`
unfoldable pub update_load : ℤ → Cmd (Unit {0})
update_load frame = do a ← get_adm; enter_page a.req_pageno frame

-- `update_pt`
unfoldable pub update_pt : ℤ → Cmd (Unit {0})
update_pt frame = do oldpage ← framepage_at frame; update_unload oldpage; update_load frame

-- `logger`: the event goes to the log file.
unfoldable pub logger : LogEvent → Cmd (Unit {0})
logger le w = ok tt (record w { logfile = le ∷ w.logfile })

-- `vmem->adm.pf_count++`, on the bit pattern of the int
unfoldable pub count_fault : Cmd (Unit {0})
count_fault = do a ← get_adm; put_adm (record a { pf_count = (a.pf_count + 1) % 2 ^ 32 })

-- `sem_post(&vmem->adm.sema)`
unfoldable pub sem_post : Cmd (Unit {0})
sem_post = do a ← get_adm; put_adm (record a { sema = a.sema + 1 })

-- `page_fault` from the choice of the frame on: the page that lies there is stored and taken out
-- of the table, the requested page is entered and fetched, and the client is let go.
unfoldable pub exchange_page : (new_frame req_page : ℤ) → Cmd (Unit {0})
exchange_page new_frame req_page = do
  page_unloaded ← framepage_at new_frame
  full ← frames_are_occupied
  if full then store_page page_unloaded else pure tt
  update_pt new_frame
  fetch_page req_page
  a ← get_adm
  logger (record {
    req_pageno = a.req_pageno;
    replaced_page = page_unloaded;
    alloc_frame = new_frame;
    pf_count = a.pf_count;
    g_count = 0;
  })
  sem_post

-- `page_fault`
unfoldable pub page_fault : Algorithm → Cmd (Unit {0})
page_fault alg = do
  a ← get_adm
  count_fault
  new_frame ← find_remove_frame alg
  exchange_page new_frame a.req_pageno
