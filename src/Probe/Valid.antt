-- ===== src/Probe/Valid.antt =====
-- The invariant of the simulator in probe/ between two accesses.
use suse_vm.Prelude.{ℕ, ◌<◌, ◌≤◌, ◌≡◌, refl, true, arith}
use suse_vm.Vmem.Sizes.{npages, nframes}
use suse_vm.Vmem.Flags.{plain_end}
use suse_vm.Vmem.State
use suse_vm.Vmem.Cells.{with_adm}
use suse_vm.Manager.Valid
use suse_vm.Probe.State.{World}

-- the state with a fault counter of 0: the invariant says nothing of the counter here
abbrev pub calmed : State.World → State.World
calmed b = with_adm b (record b.vmem.adm { pf_count = 0 })

-- What both versions have agrees, no second used bit is set, and `data_full` is set only when all
-- frames are filled.
pub record IsValid (w : World) : Type 0 where
  pub shared : Valid.IsValid (calmed w.base)
  pub plain : (p : ℕ) → p < npages → (w.base.vmem.pt.entries p).flags < plain_end
  pub full : w.data_full ≡ true → nframes ≤ w.base.vmem.adm.size

-- With all frames filled this is the invariant of working/.
pub IsValid-full : {w : World} → IsValid w → nframes ≤ w.base.vmem.adm.size → Valid.IsValid w.base
IsValid-full v full = record {
  size_le = v.shared.size_le;
  next_lt = v.shared.next_lt;
  coherent = v.shared.coherent;
  unused = v.shared.unused;
  counted = λ l. absurd (omega arith);
  file_length = v.shared.file_length;
  file_sound = v.shared.file_sound;
}

pub IsValid-calmed : {b : State.World} → Valid.IsValid b → Valid.IsValid (calmed b)
IsValid-calmed v = record {
  size_le = v.size_le;
  next_lt = v.next_lt;
  coherent = v.coherent;
  unused = v.unused;
  counted = λ l. refl;
  file_length = v.file_length;
  file_sound = v.file_sound;
}
