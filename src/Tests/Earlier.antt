-- ===== src/Tests/Earlier.antt =====
-- The simulator of Aufgabe3/ at concrete inputs: the theorems.
use suse_vm.Prelude.{◌≡◌, refl, arith, true}
use suse_vm.Vmem.Run.{Returns, ◌>>◌}
use suse_vm.Manager.Replace.{fifo, clock2}
use suse_vm.Early.Boot.{start}
use suse_vm.Early.First.{Succeeds}
use suse_vm.Early.Appl.{test_from}
use suse_vm.Early.Demo.{start-test_from}
use suse_vm.Tests.Worlds.{config, setup, raw}
use suse_vm.Tests.Witnesses.{fine-Attaches}

all_succeed : Succeeds (setup fifo)
all_succeed = record {
  pagefile = refl;
  logfile = refl;
  opened = refl;
  sized = refl;
  at_address = refl;
  semaphore = refl;
  usr1 = refl;
  usr2 = refl;
  int = refl;
}

start-test_from_example :
    Returns (λ x _. x ≡ true) ((start (setup fifo) >> test_from (config clock2) true 17 0) raw)
start-test_from_example =
    start-test_from (setup fifo) (config clock2) raw all_succeed (λ i l. refl) fine-Attaches 17
      (omega arith)
