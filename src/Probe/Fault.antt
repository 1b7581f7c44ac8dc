-- ===== src/Probe/Fault.antt =====
-- A page fault of probe/mmanage.c loads the requested page, and the virtual memory stays the same.
use mathlib.Core.Path.{subst}
use suse_vm.Prelude.{ℕ, ◌≤◌, sym, ltb, ltb→lt, Bool-cases, inl, inr, arith}
use suse_vm.Vmem.Sizes.{nframes}
use suse_vm.Vmem.Run.{Returns, bind}
use suse_vm.Manager.Exchange.{IsRequest}
use suse_vm.Manager.Fault.{full_size, counted-IsValid}
use suse_vm.Manager.Paging
use suse_vm.Probe.State.{Abi, World}
use suse_vm.Probe.Replace.{Algorithm, find_remove_frame, set_data_full}
use suse_vm.Probe.Paging.{exchange_page, page_fault}
use suse_vm.Probe.Valid.{IsValid}
use suse_vm.Probe.Picked.{use_algorithm-Picked}
use suse_vm.Probe.Served.{Done}
use suse_vm.Probe.Full.{filled, shared, page_fault-chosen}
use suse_vm.Probe.Unused.{page_fault-fresh}

-- On a request for a page that is not loaded, from a valid state, SIGUSR1 is served under each
-- algorithm: the page is loaded, the virtual memory is the same, the invariant holds, the semaphore is
-- posted once, and no count of an entry changes. Exactly one frame changes its page, the next unused
-- one while there is one; the log names both pages, the frame and the counters. While a frame is
-- unused, the counters are overwritten, each as the size of a pointer has it; from there on faults are
-- counted and the global counter stays.
pub page_fault-Done :
    (abi : Abi) (alg : Algorithm) (w : World) (r : ℕ)
    → IsValid w
    → IsRequest w.base r
    → Returns (λ _. Done abi w r) (page_fault abi alg w)
unfolding page_fault Paging.count_fault find_remove_frame set_data_full
page_fault-Done abi alg w r v req = elim (Bool-cases (ltb w.base.vmem.adm.size nframes)) [
  | inl room ↦ rw room (page_fault-fresh abi v req (ltb→lt _ _ room))
  | inr more ↦
      let f : nframes ≤ w.base.vmem.adm.size = ground arith in
      rw more (
        bind
          (use_algorithm-Picked abi alg (filled w) (counted-IsValid (shared abi v req f) req f)
            (full_size (shared abi v req f) req f))
          (λ z w' c.
            subst (λ u. Returns (λ _. Done abi w r) (exchange_page abi z u)) (sym c.1)
              (page_fault-chosen abi v req f c.0)))
]
