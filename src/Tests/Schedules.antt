-- ===== src/Tests/Schedules.antt =====
-- The processes side by side at concrete inputs.
use suse_vm.Prelude.{◌≡◌, ◌≤◌, refl, true, false, List, [], ◌∷◌, pos, update, length, ◌*◌, arith}
use suse_vm.Vmem.Flags.{present, has-zero}
use suse_vm.Vmem.Cells.{entry_at-ok}
use suse_vm.Flat.{Op, read, write}
use suse_vm.Manager.Replace.{fifo, clock, clock2}
use suse_vm.Manager.Valid.{view}
use suse_vm.Vmem.Flags.{has}
use suse_vm.Processes.{
  client, waiting, ready, System, note, find, miss, kill, by_client, by_manager, by_user, take_usr1,
  Reach, here, ◌▷◌, handles, alone, both,
}
use suse_vm.Processes.Single.{on_way, sema, loaded}
use suse_vm.Processes.Alone.{Begins}
use suse_vm.Processes.Refine.{Sound, interleaved_refines, access_undisturbed}
use suse_vm.Processes.Work.{steps}
use suse_vm.Processes.Progress.{Goes, all_served}
use suse_vm.Processes.Lost.{interrupted, request_lost}
use suse_vm.Processes.Clash.{requests_clash}
use suse_vm.Tests.Worlds.{full, full-IsValid}

-- page 21, which is not loaded, and page 0, which is
abbrev accesses : List Op
accesses = write 170 (pos 7) ∷ read 5 ∷ []

abbrev near : List Op
near = read 5 ∷ []

accesses-Begins : Begins accesses (view full) full
accesses-Begins = record {
  valid = full-IsValid;
  no_post = refl;
  no_signal = refl;
  agree = λ b l. refl;
  in_range = omega arith;
}

near-Begins : Begins near (view full) full
near-Begins = record {
  valid = full-IsValid;
  no_post = refl;
  no_signal = refl;
  agree = λ b l. refl;
  in_range = omega arith;
}

abbrev Taken : System → Type 0
Taken t = Reach clock false (alone accesses full) t

-- The first access has signalled the manager, and the signal is being handled.
signalled : (t : System) × Taken t
unfolding update handles
signalled = (
  _,
  here
      ▷ by_client 0 note
      ▷ by_client 0 (miss (entry_at-ok 21 _ (omega arith)) (has-zero present))
      ▷ by_client 0 kill
      ▷ by_manager (take_usr1 refl refl),
)

found : (t : System) × Reach fifo true (alone near full) t × (t.clients 0 ≡ client ready near [])
unfolding update has
found = (
  _,
  here ▷ by_user refl ▷ by_client 0 note ▷ by_client 0 (find (entry_at-ok 0 _ (omega arith)) refl),
  refl,
)

interleaved_refines_example : Sound accesses (view full) signalled.0
interleaved_refines_example =
    interleaved_refines clock false accesses (view full) accesses-Begins signalled.1

access_undisturbed_example :
    (on_way found.0.shared ≡ 0) × (sema found.0.shared ≡ 0) × (loaded 0 found.0.shared ≡ true)
access_undisturbed_example =
    access_undisturbed fifo true near (view full) near-Begins found.1 (read 5) [] [] found.2

all_served_example :
    (steps signalled.1 ≤ length accesses * 11) × Goes clock accesses (view full) signalled.0
all_served_example = all_served clock accesses (view full) accesses-Begins signalled.1

request_lost_example :
    Reach clock2 true (alone (read 170 ∷ near) full) (interrupted (read 170) near full)
    × ((interrupted (read 170) near full).clients 0 ≡ client waiting (read 170 ∷ near) [])
request_lost_example =
    request_lost clock2 (read 170) near full (omega arith) (has-zero present) refl here

requests_clash_example :
    (t : System) × Reach clock2 false (both (read 170 ∷ []) (read 900 ∷ []) full) t
    × (t.clients 0 ≡ client ready (read 170 ∷ []) [])
    × (loaded 21 t.shared ≡ false)
requests_clash_example =
    requests_clash clock2 (read 170) (read 900) [] [] full-IsValid refl (omega arith) (omega arith)
      (omega arith) (has-zero present) (has-zero present)
