-- ===== src/Tests/Drives.antt =====
-- A writer and a reader of one device at the same time, at concrete inputs.
use suse_vm.Prelude.{◌≡◌, refl, true, some, arith}
use suse_vm.Translate.Chars.{encode_char, encode_index_from_char, strlen, char_at}
use suse_vm.Translate.Device.{stored_char}
use suse_vm.Translate.Together.{
  Together, Turns, none_yet, find_room, put, move_on, find_item, decode, refuse, ◌▷◌, before,
}
use suse_vm.Translate.Together.Flow.{Flows}
use suse_vm.Translate.Together.Conserve.{together-Flows}
use suse_vm.Translate.Together.Miscount.{Miscounted, items-Miscounted}
use suse_vm.Tests.Drivers.{small, device, device-IsRing, willing}

-- The device encodes "a" to "A".
a_stored : stored_char small (willing 97) (device 0) 97 ≡ some 65
unfolding stored_char encode_char encode_index_from_char strlen char_at
a_stored = refl

-- The writer has moved on and not counted, while the reader was refused a char and has
-- decoded it again.
midway : (t : Together) × Turns small (willing 97) true (before (device 0)) t
unfolding stored_char
midway = (
  _,
  none_yet
      ▷ find_room refl refl
      ▷ find_item refl refl
      ▷ put 97 refl a_stored
      ▷ decode refl
      ▷ refuse refl
      ▷ find_item refl refl
      ▷ decode refl
      ▷ move_on refl,
)

together-Flows_example : Flows small (willing 97) (device 0) midway.0
together-Flows_example = together-Flows small (willing 97) (device 0) (device-IsRing 0) midway.1

items-Miscounted_example :
    Miscounted small (willing 97) (device 0) 65 2 × Miscounted small (willing 97) (device 0) 65 0
items-Miscounted_example =
    items-Miscounted small (willing 97) (device 0) (omega arith) (omega arith) 97 a_stored
