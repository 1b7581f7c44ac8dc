-- ===== src/Tests/Waiting.antt =====
-- The driver of Aufgabe4/vorlauf at concrete inputs: runs, and the theorems.
use suse_vm.Prelude.{
  ℕ, ◌≡◌, ◌≢◌, refl, inl, inr, if◌then◌else◌, ◌==◌, [], ◌∷◌, none, true, false, length, arith,
}
use suse_vm.Translate.Device as Final
use suse_vm.Translate.Device.{Params, UserSpace, down_trylock}
use suse_vm.Translate.Chars.{strlen}
use suse_vm.Translate.Queue.{contents}
use suse_vm.Translate.Locks.{count_mode}
use suse_vm.Translate.RoundTrip.{encoding}
use suse_vm.Translate.Chars.{decode_char}
use suse_vm.Translate.Module.{Driver}
use suse_vm.Translate.Loaded.{HoldsNothing}
use suse_vm.Vorlauf.Chars.{encode, decode}
use suse_vm.Vorlauf.SameChars.{encode_same}
use suse_vm.Vorlauf.Device.{
  TranslateDev, done, ebusy, asleep, Pass, leave, next, translate_open, translate_write,
  translate_read, write_item, write_loop, read_item, read_loop,
}
use suse_vm.Vorlauf.Counted.{IsCounted}
use suse_vm.Vorlauf.Write
use suse_vm.Vorlauf.Write.{translate_write-Counted}
use suse_vm.Vorlauf.Read
use suse_vm.Vorlauf.Read.{translate_read-Counted}
use suse_vm.Vorlauf.Same.{translate_write_same}
use suse_vm.Vorlauf.Wakes.{reader_wakes, writer_wakes}
use suse_vm.Vorlauf.Locks.{Guarded, Reach, none_open, opens, translate_open-Guarded}
use suse_vm.Vorlauf.Module.{translate_init, translate_cleanup, zero_slot}
use suse_vm.Vorlauf.Loaded.{IsLoaded, IsInitOutcome, init-outcome, translate_init-ready}
use suse_vm.Tests.Drivers.{
  std_translate_substr, std-IsTable, small, device, device-IsRing, blank_device, blank-IsRing,
  process, willing, kernel,
}

-- a device that holds "Z", and an empty one
abbrev waiting : (minor : ℕ) → TranslateDev
waiting minor = record { shared = device minor; items_in_buffer = 1; free_buffer_space = 2 }

abbrev empty : (minor : ℕ) → TranslateDev
empty minor = record { shared = blank_device minor; items_in_buffer = 0; free_buffer_space = 3 }

waiting-IsCounted : (minor : ℕ) → IsCounted small (waiting minor)
waiting-IsCounted minor = record { ring = device-IsRing minor; filled = refl; free = refl }

empty-IsCounted : (minor : ℕ) → IsCounted small (empty minor)
empty-IsCounted minor = record { ring = blank-IsRing minor; filled = refl; free = refl }

after : Pass TranslateDev → TranslateDev → TranslateDev
after (leave r d) e = e
after (next i d) e = d

-- Two processes that share an open file both sleep in a write, each with the index of the writer's
-- position then. When both go on, the second puts the position back to the place of its own char.
stale_index :
    (after
      (write_item small
        (willing 98)
        false
        0
        0
        (after (write_item small (willing 97) false 0 0 (empty 1)) (empty 1)))
      (empty 1)).shared.write_pos
    ≡ 1
unfolding after write_item
stale_index = refl

encode_same_example :
    (encode std_translate_substr 97 ≡ encoding std_translate_substr 97)
    × (decode std_translate_substr 97 ≡ decode_char std_translate_substr 97)
unfolding strlen
encode_same_example = encode_same std_translate_substr 97 refl

translate_write-Counted_example :
    Write.Appended small
      (process 0)
      true
      0
      30
      (waiting 0)
      (translate_write small (process 0) true 30 (waiting 0))
translate_write-Counted_example =
    translate_write-Counted small (process 0) true 30 (waiting 0) (waiting-IsCounted 0)

translate_read-Counted_example :
    Read.Taken small
      (process 0)
      false
      0
      4
      (waiting 1)
      (translate_read small (process 0) false 4 (waiting 1))
translate_read-Counted_example =
    translate_read-Counted small (process 0) false 4 (waiting 1) (waiting-IsCounted 1)

translate_write_same_example :
    contents small (translate_write small (willing 97) false 30 (waiting 0)).1.shared
    ≡ contents small (Final.translate_write small (willing 97) 30 (device 0)).1
translate_write_same_example =
    translate_write_same small (willing 97) false 30 (waiting 0) std-IsTable (waiting-IsCounted 0)

willing_reads : (i : ℕ) → (willing 97).from_user i ≢ none
willing_reads i e = ground arith

reader_asleep : (translate_read small (willing 0) false 5 (empty 1)).0 ≡ asleep
unfolding translate_read read_loop read_item
reader_asleep = refl

reader_wakes_example :
    (translate_read small
      (willing 0)
      false
      5
      (translate_write small (process 0) false 1 (empty 1)).1).0
    ≢ asleep
reader_wakes_example =
    reader_wakes small false (empty 1) (process 0) (willing 0) 5 0 97 (empty-IsCounted 1)
      (omega arith) refl reader_asleep

abbrev full : TranslateDev
full = record {
  shared = record (blank_device 0) { items = 3 };
  items_in_buffer = 3;
  free_buffer_space = 0;
}

full-IsCounted : IsCounted small full
full-IsCounted = record {
  ring = record {
    items_le = omega arith;
    read_lt = omega arith;
    write_lt = omega arith;
    behind = inr (omega arith);
  };
  filled = refl;
  free = refl;
}

writer_asleep : (translate_write small (process 0) false 5 full).0 ≡ asleep
unfolding translate_write write_loop write_item
writer_asleep = refl

writer_wakes_example :
    (translate_write small (process 0) false 5 (translate_read small (willing 0) false 1 full).2).0
    ≢ asleep
writer_wakes_example =
    writer_wakes small false full (process 0) (willing 0) 5 0 full-IsCounted (omega arith) refl
      writer_asleep

empty-Guarded : Guarded small (empty 0) 0 []
unfolding count_mode length
empty-Guarded = record { counted = empty-IsCounted 0; writers = refl; readers = refl; used = refl }

abbrev opened : TranslateDev
opened = record (empty 0) { shared = record (blank_device 0) { writer_open_lock = 0 } }

one_writer : Reach small (empty 0) opened 1 (true ∷ [])
unfolding translate_open
one_writer = opens true none_open

translate_open-Guarded_example :
    IsCounted small opened
    × (1 ≡ length (true ∷ []))
    × ((translate_open true 1 opened).outcome
        ≡ (if count_mode true (true ∷ []) == 0 then done else ebusy))
translate_open-Guarded_example =
    translate_open-Guarded small (empty 0) opened 1 (true ∷ []) true empty-Guarded one_writer

abbrev unloaded : Driver TranslateDev
unloaded = record { region_held = false; devs_held = false; slots = λ _. zero_slot }

unloaded-HoldsNothing : HoldsNothing unloaded
unloaded-HoldsNothing = record {
  region = refl;
  devs = refl;
  buffers = λ i l. refl;
  cdevs = λ i l. refl;
}

abbrev loaded : Driver TranslateDev
loaded = (translate_init small (kernel true) unloaded).1

loaded-IsLoaded : IsLoaded small loaded
loaded-IsLoaded =
    elim (init-outcome small (omega arith) (kernel true) unloaded unloaded-HoldsNothing) [
      | inl r ↦ r.2
      | inr r ↦ let no = r.0 in absurd (ground arith)
    ]

translate_init-ready_example :
    IsInitOutcome small (kernel false) (translate_init small (kernel false) unloaded)
    × HoldsNothing (translate_cleanup loaded)
translate_init-ready_example =
    translate_init-ready small (kernel false) unloaded loaded (omega arith) unloaded-HoldsNothing
      loaded-IsLoaded
