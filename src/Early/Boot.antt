-- ===== src/Early/Boot.antt =====
-- The start of Aufgabe3/mmanage.c: `main` up to the loop, `init_pagefile`, `open_logfile`, `vmem_init`.
use suse_vm.Prelude.{ℕ, ◌*◌, ◌%◌, ◌==◌, Bool, not, if◌then◌else◌, ℤ, pos, List, blit}
use suse_vm.Vmem.Sizes.{npages, nframes, page_size, void_idx}
use suse_vm.Vmem.State.{Signal}
use suse_vm.Vmem.Os.{Mapping, null, map_failed, mapped, OsReply}
use suse_vm.Vmem.Run.{ok, stop, Cmd, pure, fail, exit_failure, out_of_bounds, ◌>>◌}
use suse_vm.Vmem.Pagefile.{run_length}
use suse_vm.Manager.Boot
use suse_vm.Manager.Boot.{is_zero}
use suse_vm.Manager.Signals.{LoopState}
use suse_vm.Manager.Main.{Setup}
use suse_vm.Access.{is_minus_one}
use suse_vm.Early.Paging.{signal_processing_loop}

-- `MY_RANDOM_MOD`
abbrev pub random_mod : ℕ
random_mod = 50

-- `init_pagefile`: only a write of nothing at all is taken for a failure.
unfoldable pub init_pagefile : (rand : ℕ → ℕ) → (opened : Bool) → Cmd (Unit {0})
init_pagefile rand opened w =
    let n = npages * page_size in
    let writing_result = run_length (λ i. not (w.pagefile.broken i)) 0 n in
    if opened
    then (if writing_result == 0
        then stop exit_failure
        else ok tt (record w {
          pagefile = record w.pagefile {
            ints = blit (λ _. pos 0) 0 (λ i. pos (rand i % random_mod)) 0 writing_result;
            length = writing_result;
            position = writing_result;
          };
        }))
    else stop exit_failure

-- `open_logfile` is that of working/.
abbrev pub open_logfile : (opened : Bool) → Cmd (Unit {0})
open_logfile opened = Boot.open_logfile opened

-- the assignments of `vmem_init` before `sem_init`
unfoldable pub fill_adm : (pid : ℕ) → Cmd (Unit {0})
fill_adm pid w = ok tt (record w {
  vmem = record w.vmem {
    adm = record w.vmem.adm {
      size = 0;
      mmanage_pid = pid;
      shm_id = void_idx;
      req_pageno = void_idx;
      next_alloc_idx = 0;
      pf_count = 0;
    };
  };
})

-- `sem_init(&vmem->adm.sema, 1, 1)`
unfoldable pub init_semaphore : (sem_result : ℤ) → Cmd (Unit {0})
init_semaphore result w =
    if is_zero result
    then ok tt (record w { vmem = record w.vmem { adm = record w.vmem.adm { sema = 1 } } })
    else stop exit_failure

-- the loops at the end of `vmem_init`
unfoldable pub fill_tables : Cmd (Unit {0})
fill_tables w = ok tt (record w {
  vmem = record w.vmem {
    pt = record {
      entries = blit w.vmem.pt.entries 0 (λ _. record { flags = 0; frame = void_idx }) 0 npages;
      framepage = blit w.vmem.pt.framepage 0 (λ _. void_idx) 0 nframes;
    };
    cells = blit w.vmem.cells 0 (λ _. void_idx) 0 (nframes * page_size);
  };
})

-- `vmem_init` from `mmap` on
unfoldable pub mapped_init : Mapping → (sem_result : ℤ) → (pid : ℕ) → Cmd (Unit {0})
unfolding fill_adm init_semaphore fill_tables
mapped_init null sem_result pid = fail exit_failure
mapped_init map_failed sem_result pid = fail out_of_bounds
mapped_init mapped sem_result pid = do fill_adm pid; init_semaphore sem_result; fill_tables

-- `vmem_init`
unfoldable pub vmem_init : OsReply → (pid : ℕ) → Cmd (Unit {0})
unfolding mapped_init
vmem_init os pid =
    if is_zero os.fd
    then fail exit_failure
    else (if is_zero os.truncated
        then mapped_init os.mapping os.sem_result pid
        else fail exit_failure)

-- `if(sigaction(…) == -1) exit(EXIT_FAILURE)`
unfoldable pub install_handler : ℤ → Cmd (Unit {0})
install_handler result = if is_minus_one result then fail exit_failure else pure tt

-- `main` up to the loop
unfoldable pub start : Setup → Cmd (Unit {0})
start s = do
  init_pagefile s.rand s.pagefile_opened
  open_logfile s.logfile_opened
  vmem_init s.os s.pid
  install_handler s.usr1_installed
  install_handler s.usr2_installed
  install_handler s.int_installed

-- `main`, when the given signals come in
unfoldable pub main : Setup → List Signal → Cmd LoopState
main s signals = start s >> signal_processing_loop s.algorithm signals
