-- ===== src/Translate/Queue.antt =====
-- The ring buffer of Aufgabe4_final/translate.c as a queue of chars.
use suse_vm.Prelude.{ring_from, ℕ, ◌+◌, ◌<◌, ◌≤◌, ◌≡◌, ◌⊎◌, List}
use suse_vm.Translate.Device.{Params, TranslateDev}

-- The chars in the device, oldest first.
abbrev pub contents : Params → TranslateDev → List ℕ
contents m d = ring_from m.translate_bufsize d.buffer d.read_pos d.items

-- The positions are in the buffer, and the writer is `items` places after the reader.
pub record IsRing (m : Params) (d : TranslateDev) : Type 0 where
  pub items_le : d.items ≤ m.translate_bufsize
  pub read_lt : d.read_pos < m.translate_bufsize
  pub write_lt : d.write_pos < m.translate_bufsize
  pub behind :
      (d.write_pos ≡ d.read_pos + d.items)
      ⊎ (d.write_pos + m.translate_bufsize ≡ d.read_pos + d.items)
