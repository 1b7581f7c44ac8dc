-- ===== src/Early/Requests.antt =====
-- Accesses of a client of Aufgabe3/ whose signals the manager serves before the client looks at the
-- semaphore.
use mathlib.Core.Path.{subst}
use suse_vm.Prelude.{ℕ, suc, ◌+◌, ◌<◌, ◌≡◌, refl, true, false, ◌==◌, pos, arith}
use suse_vm.Vmem.Sizes.{npages, nframes}
use suse_vm.Vmem.State.{World, none_pending}
use suse_vm.Vmem.Run.{ok, Returns, returns, bind}
use suse_vm.Vmem.Cells.{entry_at-ok}
use suse_vm.Manager.Signals.{set_signal}
use suse_vm.Access.{Config, sem_wait}
use suse_vm.Access.Ready.{CanAttach, vm_init_if_not_ready-attaches}
use suse_vm.Early.Paging.{after_pause, page_fault}
use suse_vm.Early.Access.{load_if_absent, request_page}
use suse_vm.Early.Fault.{Filled, page_fault-Filled}
use suse_vm.Early.Resident.{Loaded, Filled-Loaded}

-- the state in which the request for page `p` is noted
abbrev pub noted : World → ℕ → World
noted w p = record w {
  vmem = record w.vmem { adm = record w.vmem.adm { req_pageno = pos p } };
  attached = true;
}

-- the state in which the manager turns to the request for page `p`
abbrev asked : World → ℕ → World
asked w p = record (noted w p) { signal_number = none_pending }

-- What a request leaves: so many pages loaded, the client attached.
pub record Granted (k : ℕ) (w : World) : Type 0 where
  pub loaded : Loaded k w
  pub attached : w.attached ≡ true

pub noted-Granted : {k : ℕ} {w : World} (p : ℕ) → Loaded k w → Granted k (noted w p)
noted-Granted p l = record {
  loaded = record { table = l.table; size = l.size; unused = l.unused; file = l.file };
  attached = refl;
}

module _ (c : Config) {k : ℕ} {w : World} (l : Loaded k w) (can : CanAttach c.os w) where
  -- A page that is there is not asked for.
  pub request_page-here : (p : ℕ) → p < k → p < npages → request_page c true p w ≡ ok tt (noted w p)
  unfolding request_page load_if_absent
  request_page-here p h lt =
      rw (vm_init_if_not_ready-attaches c.os w can, entry_at-ok p (noted w p) lt, l.table.here p h)
        refl

  -- The wait for the next page ends at once: its fault has posted.
  wait-Granted :
      {w' : World}
      → k + 1 < nframes
      → Filled (asked w k) k (k + 1) w'
      → Returns (λ _. Granted (suc k)) (sem_wait w')
  unfolding sem_wait
  wait-Granted {w'} room f =
      let up : (w'.vmem.adm.sema == 0) ≡ false = ground (arith, f.posted) in
      let n =
        Filled-Loaded {w = asked w k} room
          (record { table = l.table; size = l.size; unused = l.unused; file = l.file }) f in
      rw up (
        returns (record {
          loaded = record { table = n.table; size = n.size; unused = n.unused; file = n.file };
          attached = f.same_client;
        }))

  fault-Filled :
      k + 1 < nframes
      → Returns (λ _. Filled (asked w k) k (k + 1)) (page_fault c.algorithm (asked w k))
  fault-Filled room =
      let e = l.size in
      subst (λ s. Returns (λ _. Filled (asked w k) k (s + 1)) (page_fault c.algorithm (asked w k)))
        e
        (page_fault-Filled c.algorithm (asked w k) k (omega arith) refl
          (record { whole = l.file.whole; sound = l.file.sound }) (omega arith)
          (l.unused (w.vmem.adm.size + 1) (omega arith) (omega arith)))

  -- The page after the loaded ones is loaded by the fault.
  pub request_page-next : k + 1 < nframes → Returns (λ _. Granted (suc k)) (request_page c true k w)
  unfolding request_page load_if_absent after_pause set_signal
  request_page-next room =
      let lt : k < npages = omega arith in
      rw
        (
          vm_init_if_not_ready-attaches c.os w can,
          entry_at-ok k (noted w k) lt,
          l.table.absent k (omega arith) lt,
        )
        (bind (bind (fault-Filled room) (λ _ w' f. returns f)) (λ _ w' f. wait-Granted room f))
