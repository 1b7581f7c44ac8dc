-- ===== src/Early/First.antt =====
-- The first access after the start of Aufgabe3/, when the client is faster than the manager.
use suse_vm.Prelude.{◌≡◌, false, true}
use suse_vm.Vmem.Os.{mapped}
use suse_vm.Manager.Boot
use suse_vm.Manager.Boot.{is_zero}
use suse_vm.Manager.Main.{Setup}
use suse_vm.Access.{is_minus_one}

-- Every call that the start makes succeeds.
pub record Succeeds (s : Setup) : Type 0 where
  pub pagefile : s.pagefile_opened ≡ true
  pub logfile : s.logfile_opened ≡ true
  pub opened : is_zero s.os.fd ≡ false
  pub sized : is_zero s.os.truncated ≡ true
  pub at_address : s.os.mapping ≡ mapped
  pub semaphore : is_zero s.os.sem_result ≡ true
  pub usr1 : is_minus_one s.usr1_installed ≡ false
  pub usr2 : is_minus_one s.usr2_installed ≡ false
  pub int : is_minus_one s.int_installed ≡ false
