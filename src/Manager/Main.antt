-- ===== src/Manager/Main.antt =====
-- `main` of working/mmanage.c: the start of the manager, and the signals that it then waits for.
use suse_vm.Prelude.{ℕ, Bool, List, ℤ, if◌then◌else◌}
use suse_vm.Vmem.State.{Signal}
use suse_vm.Vmem.Os.{OsReply}
use suse_vm.Vmem.Run.{Cmd, pure, fail, exit_failure, ◌>>◌}
use suse_vm.Manager.Replace.{Algorithm}
use suse_vm.Manager.Signals.{LoopState, signal_processing_loop}
use suse_vm.Manager.Boot.{init_pagefile, open_logfile, vmem_init, is_zero}

-- what the manager is compiled with, and what it is answered: by `rand`, by `fopen` for the two
-- files, when it makes the shared memory, by `getpid`, and by the three calls of `sigaction`
pub record Setup : Type 0 where
  pub algorithm : Algorithm
  pub rand : ℕ → ℕ
  pub pagefile_opened : Bool
  pub logfile_opened : Bool
  pub os : OsReply
  pub pid : ℕ
  pub usr1_installed : ℤ
  pub usr2_installed : ℤ
  pub int_installed : ℤ

-- `if(sigaction(…) != 0) exit(EXIT_FAILURE)`
unfoldable pub install_handler : ℤ → Cmd (Unit {0})
install_handler result = if is_zero result then pure tt else fail exit_failure

-- `main` up to the loop
unfoldable pub start : Setup → Cmd (Unit {0})
start s = do
  init_pagefile s.rand s.pagefile_opened
  open_logfile s.logfile_opened
  vmem_init s.os s.pid
  install_handler s.usr1_installed
  install_handler s.usr2_installed
  install_handler s.int_installed

-- `main`, when the given signals come in
unfoldable pub main : Setup → List Signal → Cmd LoopState
main s signals = do start s; signal_processing_loop s.algorithm signals
