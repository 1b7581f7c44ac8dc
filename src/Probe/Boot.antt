-- ===== src/Probe/Boot.antt =====
-- The start of probe/mmanage.c: `main` up to its loop, `init_pagefile`, `vmem_init`,
-- `init_semaphor`. What only prints an error goes on.
use suse_vm.Prelude.{ℕ, ◌*◌, ◌-◌, ◌%◌, ◌^◌, Bool, not, if◌then◌else◌, ℤ, pos, List, [], blit}
use suse_vm.Vmem.Sizes.{npages, nframes, page_size, void_idx}
use suse_vm.Vmem.State.{Signal}
use suse_vm.Vmem.Os.{Mapping, mapped}
use suse_vm.Vmem.Run.{ok, stop, pure, fail, exit_failure, out_of_bounds, ◌>>◌}
use suse_vm.Vmem.Pagefile.{run_length}
use suse_vm.Manager.Signals.{LoopState}
use suse_vm.Access.{is_minus_one}
use suse_vm.Probe.State.{Abi, Cmd}
use suse_vm.Probe.Replace.{Algorithm}
use suse_vm.Probe.Access.{signal_loop}

-- what the manager is compiled with, and what it is answered: by `rand`, by `fopen` for the two files,
-- by `mmap`, by `getpid`, by `sem_init`, and by the three calls of `sigaction`
pub record Setup : Type 0 where
  pub abi : Abi
  pub algorithm : Algorithm
  pub rand : ℕ → ℕ
  pub pagefile_opened : Bool
  pub logfile_opened : Bool
  pub mapping : Mapping
  pub pid : ℕ
  pub sem_result : ℤ
  pub usr1_installed : ℤ
  pub usr2_installed : ℤ
  pub int_installed : ℤ

-- `init_pagefile`: `fwrite` to a file that was not opened faults; a short write is printed only.
unfoldable pub init_pagefile : (rand : ℕ → ℕ) → (opened : Bool) → Cmd (Unit {0})
init_pagefile rand opened w =
    let n = npages * page_size in
    let count = run_length (λ i. not (w.base.pagefile.broken i)) 0 n in
    if opened
    then ok tt (record w {
      base = record w.base {
        pagefile = record w.base.pagefile {
          ints = blit (λ _. pos 0) 0 (λ i. pos (rand i % 1000)) 0 count;
          length = count;
          position = count;
        };
      };
    })
    else stop out_of_bounds

-- `logfile = fopen(MMANAGE_LOGFNAME, "w")`
unfoldable pub open_logfile : (opened : Bool) → Cmd (Unit {0})
open_logfile opened w =
    if opened then ok tt (record w { base = record w.base { logfile = [] } }) else stop exit_failure

-- The assignments of `vmem_init`. The counts of the entries are not set; -1 is 2 ^ 32 - 1 as bits.
unfoldable pub fill_vmem : (pid : ℕ) → Cmd (Unit {0})
fill_vmem pid w =
    let b = w.base in
    ok tt (record w {
      base = record b {
        vmem = record b.vmem {
          adm = record b.vmem.adm {
            size = 0;
            mmanage_pid = pid;
            shm_id = void_idx;
            req_pageno = void_idx;
            next_alloc_idx = 0;
            pf_count = 2 ^ 32 - 1;
          };
          pt = record {
            entries =
                blit b.vmem.pt.entries 0 (λ _. record { flags = 0; frame = void_idx }) 0 npages;
            framepage = blit b.vmem.pt.framepage 0 (λ _. void_idx) 0 nframes;
          };
          cells = blit b.vmem.cells 0 (λ _. void_idx) 0 (nframes * page_size);
        };
      };
      g_count = 2 ^ 32 - 1;
    })

-- `vmem_init`: a store through NULL or `MAP_FAILED` faults.
unfoldable pub vmem_init : Mapping → (pid : ℕ) → Cmd (Unit {0})
vmem_init mapped pid = fill_vmem pid
vmem_init _ pid = fail out_of_bounds

-- `init_semaphor`: a failure is printed only.
unfoldable pub init_semaphor : (sem_result : ℤ) → Cmd (Unit {0})
init_semaphor result w =
    if is_minus_one result
    then ok tt w
    else ok tt (record w {
      base = record w.base {
        vmem = record w.base.vmem { adm = record w.base.vmem.adm { sema = 1 } };
      };
    })

-- `if(sigaction(…) == -1) exit(EXIT_FAILURE)`
unfoldable pub install_handler : ℤ → Cmd (Unit {0})
install_handler result = if is_minus_one result then fail exit_failure else pure tt

-- `main` up to the loop
unfoldable pub start : Setup → Cmd (Unit {0})
start s = do
  init_pagefile s.rand s.pagefile_opened
  open_logfile s.logfile_opened
  vmem_init s.mapping s.pid
  init_semaphor s.sem_result
  install_handler s.usr1_installed
  install_handler s.usr2_installed
  install_handler s.int_installed

-- `main`, when the given signals come in
unfoldable pub main : Setup → List Signal → Cmd LoopState
main s signals = start s >> signal_loop s.abi s.algorithm signals
