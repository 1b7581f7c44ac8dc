-- ===== src/Tests/Calls.antt =====
-- The driver at concrete inputs: runs, and the theorems.
use suse_vm.Prelude.{
  ◌≤◌, ◌≡◌, refl, if◌then◌else◌, ◌==◌, List, [], ◌∷◌, ◌++◌, true, false, arith, ℕ, update,
}
use suse_vm.Translate.Chars.{
  strlen, char_at, strchr, encode_index_from_char, encode_char, decode_from_index, decode_char,
}
use suse_vm.Translate.RoundTrip.{RoundTrip, decode_char-encode_char}
use suse_vm.Translate.Device.{
  TranslateDev, opened, ebusy, translate_open, translate_write, translate_read, write_loop,
  read_loop, write_item, read_item, stored_char, handed_char,
}
use suse_vm.Prelude.{ring_from}
use suse_vm.Translate.Queue.{IsRing}
use suse_vm.Translate.Write.{Appended, translate_write-Appended, given}
use suse_vm.Translate.Read.{Taken, translate_read-Taken}
use suse_vm.Translate.Stream.{
  Call, write, read, serve, NoneRefused, Conserved, serve-Conserved, NoNul, ArePair, serve-pipeline,
}
use suse_vm.Translate.Locks.{
  count_mode, Guarded, Reach, none_open, open_ok, translate_open-exclusive,
}
use suse_vm.Translate.Module.{Driver, translate_init, translate_cleanup}
use suse_vm.Translate.Loaded.{HoldsNothing, IsLoaded, IsInitOutcome, translate_init-outcome}
use suse_vm.Tests.Drivers.{
  std_translate_substr, std-IsTable, small, device, device-IsRing, blank_device, blank-IsRing,
  process, willing, kernel, unloaded,
}

-- NUL is decoded to "[", since strchr finds the terminator.
decode_nul : decode_char std_translate_substr 0 ≡ 91
unfolding decode_char decode_from_index strchr strlen
decode_nul = refl

-- A char whose reader refuses it is decoded at each attempt: "A" is read as "A", not as "a".
decoded_twice :
    (translate_read small
      (process 1)
      1
      (translate_read small (process 0) 1 (record (device 1) { buffer = λ _. 65 })).2).1
    ≡ 65 ∷ []
unfolding translate_read read_loop read_item handed_char decode_char decode_from_index strchr strlen
    update
decoded_twice = refl

decode_char-encode_char_example : RoundTrip std_translate_substr 97
decode_char-encode_char_example = decode_char-encode_char std-IsTable 97 (λ e. absurd (omega arith))

translate_write-Appended_example :
    Appended small (process 0) 0 2 (device 0) (translate_write small (process 0) 30 (device 0))
translate_write-Appended_example =
    translate_write-Appended small (process 0) 30 (device 0) std-IsTable (device-IsRing 0)

translate_read-Taken_example :
    Taken small (process 0) 0 1 (device 1) (translate_read small (process 0) 4 (device 1))
translate_read-Taken_example = translate_read-Taken small (process 0) 4 (device 1) (device-IsRing 1)

abbrev echo : (first : ℕ) → List Call
echo first = write (willing first) 2 ∷ read (willing 0) 5 ∷ []

echo-NoneRefused : (first : ℕ) → NoneRefused (echo first)
unfolding NoneRefused
echo-NoneRefused first = ((λ n. refl), tt)

serve-Conserved_example : Conserved small (device 0) (serve small (echo 97) (device 0))
serve-Conserved_example =
    serve-Conserved small std-IsTable (echo 97) (device 0) (device-IsRing 0) (echo-NoneRefused 97)

devices-ArePair : ArePair small (blank_device 0) (blank_device 1)
unfolding ring_from
devices-ArePair = record {
  encoder = blank-IsRing 0;
  decoder = blank-IsRing 1;
  encodes = refl;
  decodes = refl;
  nothing_written = refl;
  nothing_passed = refl;
}

ab-NoNul : NoNul (serve small (echo 97) (blank_device 0)).taken_in
unfolding NoNul serve given
ab-NoNul = ((λ e. absurd (omega arith)), ((λ e. absurd (omega arith)), tt))

ab-passed :
    (serve small (echo 97) (blank_device 0)).given_out
    ≡ (serve small (echo 65) (blank_device 1)).taken_in ++ []
unfolding serve given translate_write write_loop write_item stored_char translate_read read_loop
    read_item handed_char encode_char encode_index_from_char strlen char_at update
ab-passed = refl

serve-pipeline_example :
    (rest : List ℕ) × ((serve small (echo 65) (blank_device 1)).given_out ++ rest
      ≡ (serve small (echo 97) (blank_device 0)).taken_in)
serve-pipeline_example =
    serve-pipeline small std-IsTable (blank_device 0) (blank_device 1) (echo 97) (echo 65) []
      devices-ArePair (echo-NoneRefused 97) (echo-NoneRefused 65) ab-NoNul ab-passed

device-Guarded : Guarded small (device 0) []
unfolding count_mode
device-Guarded = record { ring = device-IsRing 0; writers = refl; readers = refl }

abbrev written_to : TranslateDev
written_to = record (device 0) { writer_open_lock = 0 }

one_writer : Reach small (device 0) written_to (true ∷ [])
unfolding translate_open
one_writer = open_ok true written_to none_open refl

translate_open-exclusive_example :
    IsRing small written_to
    × (count_mode true (true ∷ []) ≤ 1)
    × ((translate_open true written_to).0
        ≡ (if count_mode true (true ∷ []) == 0 then opened else ebusy))
translate_open-exclusive_example =
    translate_open-exclusive small (device 0) written_to (true ∷ []) true std-IsTable device-Guarded
      one_writer

unloaded-HoldsNothing : HoldsNothing unloaded
unloaded-HoldsNothing = record {
  region = refl;
  devs = refl;
  buffers = λ i l. refl;
  cdevs = λ i l. refl;
}

translate_init-outcome_example :
    IsInitOutcome small (kernel false) (translate_init (kernel false) unloaded)
    × ((r : Driver TranslateDev) → IsLoaded small r → HoldsNothing (translate_cleanup r))
translate_init-outcome_example =
    translate_init-outcome small (kernel false) unloaded (omega arith) unloaded-HoldsNothing
