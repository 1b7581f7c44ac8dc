-- ===== src/Processes/Refine.antt =====
-- One client and the manager, in whatever order they take turns, do what a flat memory does.
use suse_vm.Prelude.{ℕ, ◌<◌, ◌≡◌, Bool, true, List, ◌∷◌, ◌++◌, ℤ}
use suse_vm.Vmem.Sizes.{virtmem_size}
use suse_vm.Vmem.State.{World}
use suse_vm.Flat.{Memory, Op, replies, final}
use suse_vm.Manager.Replace.{Algorithm}
use suse_vm.Manager.Valid.{IsValid, view}
use suse_vm.Processes.{Client, client, ready, page, System, Reach, alone}
use suse_vm.Processes.Single.{on_way, sema, loaded, Fits, rest, replies_of}
use suse_vm.Processes.Moves.{at_ready}
use suse_vm.Processes.Alone.{Begins, Begins-Alone, Alone, Reach-Alone}
use mathlib.Core.Path.{subst}

-- What has been read so far, and what is still to be read from the virtual memory as it is, are
-- together what the accesses read from the flat memory `m`.
pub record Sound (ops : List Op) (m : Memory) (t : System) : Type 0 where
  pub valid : IsValid t.shared.world
  pub memory : Memory
  pub holds : (b : ℕ) → b < virtmem_size → view t.shared.world b ≡ memory b
  pub told : replies_of (t.clients 0) ++ replies (rest (t.clients 0)) memory ≡ replies ops m
  pub ends : final (rest (t.clients 0)) memory ≡ final ops m

module _ (alg : Algorithm) (dumps : Bool) (ops : List Op) (m : Memory) {w : World}
    (begins : Begins ops m w) {t : System} (r : Reach alg dumps (alone ops w) t) where
  reached : Alone dumps ops m t
  reached = Reach-Alone (Begins-Alone dumps begins) r

  -- One client, whose accesses are all to addresses below 1024, and the manager, from a valid state with the semaphore at 0 and no signal, in any
  -- order of their steps and with any number of SIGUSR2 in between, under each algorithm: the
  -- invariant holds; what the client has read so far, followed by what its remaining accesses
  -- read from the virtual memory as it is, is what its accesses read from a flat memory; and the
  -- remaining accesses lead to the same final memory.
  pub interleaved_refines : Sound ops m t
  interleaved_refines =
      let f = reached.inv.follows in
      record {
        valid = reached.inv.valid;
        memory = f.memory;
        holds = f.agree;
        told = f.told;
        ends = f.ends;
      }

  ready-facts :
      {c : Client} {op : Op} {rest : List Op} {rs : List ℤ}
      → Fits dumps t.shared c
      → c ≡ client ready (op ∷ rest) rs
      → (on_way t.shared ≡ 0) × (sema t.shared ≡ 0) × (loaded (page op) t.shared ≡ true)
  ready-facts f e = at_ready (subst (Fits dumps t.shared) e f)

  -- From a valid state with the semaphore at 0 and no signal, in any order of the steps of one client,
  -- whose accesses are all to addresses below 1024, and the manager, also with SIGUSR2: when the client stands before an access to a page, no request
  -- of it is on its way (pending, in a handler, or in `signal_number`), the semaphore is at 0, and the
  -- page is loaded.
  pub access_undisturbed :
      (op : Op) (rest : List Op) (rs : List ℤ)
      → t.clients 0 ≡ client ready (op ∷ rest) rs
      → (on_way t.shared ≡ 0) × (sema t.shared ≡ 0) × (loaded (page op) t.shared ≡ true)
  access_undisturbed op rest rs e = ready-facts reached.inv.fits e
