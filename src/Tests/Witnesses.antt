-- ===== src/Tests/Witnesses.antt =====
-- The theorems at concrete inputs.
use suse_vm.Prelude.{◌≡◌, refl, pos, inr, arith, update}
use suse_vm.Vmem.Run.{Returns}
use suse_vm.Vmem.Flags.{present, has-zero}
use suse_vm.Manager.Replace.{fifo, clock, clock2}
use suse_vm.Manager.Paging.{page_fault}
use suse_vm.Manager.Main.{start}
use suse_vm.Manager.Valid.{view}
use suse_vm.Manager.Exchange.{IsRequest}
use suse_vm.Manager.Chances.{SecondChance, use_algorithm-SecondChance}
use suse_vm.Manager.Replace.{use_algorithm}
use suse_vm.Manager.Served.{Done}
use suse_vm.Manager.Fault.{page_fault-Served}
use suse_vm.Manager.Fifo.{Queued, page_fault-Queued}
use suse_vm.Manager.Started.{Started, start-Started}
use suse_vm.Access.{vmem_read, vmem_write}
use suse_vm.Access.Ready.{Attaches}
use suse_vm.Access.Refine.{Left, vmem_read-view, vmem_write-view}
use suse_vm.Tests.Worlds.{fine, config, setup, raw, fresh, fresh-IsValid, full, full-IsValid}

pub fine-Attaches : Attaches fine
fine-Attaches = record { opened = refl; sized = refl; at_address = refl }

vmem_read-view_example :
    Returns
      (λ x w. (x ≡ view fresh 43) × Left fresh (view fresh) w)
      (vmem_read (config fifo) 43 fresh)
vmem_read-view_example =
    vmem_read-view (config fifo) 43 fresh-IsValid (inr fine-Attaches) (omega arith)

vmem_write-view_example :
    Returns
      (λ _. Left full (update (view full) 170 (pos 7)))
      (vmem_write (config clock2) 170 (pos 7) full)
vmem_write-view_example =
    vmem_write-view (config clock2) 170 full-IsValid (inr fine-Attaches) (omega arith) (pos 7)

full-IsRequest : IsRequest full 20
full-IsRequest = record { page_lt = omega arith; requested = refl; absent = has-zero present }

page_fault-Served_example : Returns (λ _. Done full 20) (page_fault clock full)
page_fault-Served_example = page_fault-Served clock full 20 full-IsValid full-IsRequest

start-Started_example : Returns (λ _. Started (setup fifo)) (start (setup fifo) raw)
start-Started_example =
    start-Started (setup fifo) raw
      (record {
        pagefile = refl;
        logfile = refl;
        opened = refl;
        sized = refl;
        at_address = refl;
        semaphore = refl;
        usr1 = refl;
        usr2 = refl;
        int = refl;
      })
      (λ i l. refl)

page_fault-Queued_example : Returns (λ _. Queued full 20) (page_fault fifo full)
page_fault-Queued_example = page_fault-Queued full 20 full-IsValid full-IsRequest (omega arith)

use_algorithm-SecondChance_example : Returns (SecondChance clock2 full) (use_algorithm clock2 full)
use_algorithm-SecondChance_example = use_algorithm-SecondChance clock2 full full-IsValid refl
