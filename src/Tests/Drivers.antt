-- ===== src/Tests/Drivers.antt =====
-- A driver of Aufgabe4_final/translate.c with the default substitution and three places in the
-- buffer, and processes that call it.
use suse_vm.Prelude.{
  ℕ, zero, suc, ◌+◌, ◌-◌, ◌<◌, ◌≡◌, refl, sym, ◌∙◌, Bool, true, false, ltb, if◌then◌else◌, ◌==◌,
  List, [], ◌∷◌, Option, none, some, inl, inr, pos, all_below_sound, arith,
}
use mathlib.Core.Option.{some-injective}
use suse_vm.Translate.Chars.{strlen, char_at}
use suse_vm.Translate.RoundTrip.{IsTable}
use suse_vm.Translate.Device.{Params, TranslateDev, UserSpace}
use suse_vm.Translate.Queue.{IsRing}
use suse_vm.Translate.Module.{Kernel, Driver, zero_slot}

abbrev letters_from : (n c : ℕ) → List ℕ → List ℕ
letters_from zero c s = s
letters_from (suc n) c s = c ∷ letters_from n (c + 1) s

-- `STD_TRANSLATE_SUBSTR`
abbrev pub std_translate_substr : List ℕ
std_translate_substr = letters_from 26 65 (letters_from 26 97 [])

abbrev letter_at : ℕ → ℕ
letter_at i = if ltb i 26 then 65 + i else 97 + (i - 26)

abbrev holds_char : Option ℕ → ℕ → Bool
holds_char none c = false
holds_char (some x) c = x == c

holds_char_sound : (o : Option ℕ) (c : ℕ) → holds_char o c ≡ true → o ≡ some c
holds_char_sound none c h = absurd (ground arith)
holds_char_sound (some x) c h = let e : x ≡ c = ground arith in rw e refl

char_at-std : (i : ℕ) → i < 52 → char_at std_translate_substr i ≡ some (letter_at i)
unfolding char_at
char_at-std i h =
    holds_char_sound _ _
      (all_below_sound 52 (λ j. holds_char (char_at std_translate_substr j) (letter_at j)) i refl h)

is_this : (i x : ℕ) → i < 52 → char_at std_translate_substr i ≡ some x → x ≡ letter_at i
is_this i x h e = some-injective _ _ (sym e ∙ char_at-std i h)

pub std-IsTable : IsTable std_translate_substr
unfolding strlen
std-IsTable = record {
  length = refl;
  distinct =
      λ i j x hi hj ei ej. let a = is_this i x hi ei in let b = is_this j x hj ej in ground arith;
  letters = λ i x h e. let a = is_this i x h e in ground arith;
}

abbrev pub small : Params
small = record { translate_subst = std_translate_substr; translate_bufsize = 3 }

-- a device that holds "Z" at its last place
abbrev pub device : (minor : ℕ) → TranslateDev
device minor = record {
  buffer = λ _. 90;
  items = 1;
  read_pos = 2;
  write_pos = 0;
  minor = minor;
  writer_open_lock = 1;
  reader_open_lock = 1;
}

pub device-IsRing : (minor : ℕ) → IsRing small (device minor)
device-IsRing minor = record {
  items_le = omega arith;
  read_lt = omega arith;
  write_lt = omega arith;
  behind = inr (omega arith);
}

abbrev pub blank_device : (minor : ℕ) → TranslateDev
blank_device minor = record (device minor) { items = 0; read_pos = 0 }

pub blank-IsRing : (minor : ℕ) → IsRing small (blank_device minor)
blank-IsRing minor = record {
  items_le = omega arith;
  read_lt = omega arith;
  write_lt = omega arith;
  behind = inl (omega arith);
}

-- a process whose memory holds "a", "b", … and takes `room` chars
abbrev pub process : (room : ℕ) → UserSpace
process room = record {
  from_user = λ i. if ltb i 20 then some (97 + i) else none;
  left_behind = λ _. 0;
  to_user = λ i. ltb i room;
}

abbrev pub willing : (first : ℕ) → UserSpace
willing first = record {
  from_user = λ i. some (first + i);
  left_behind = λ _. 0;
  to_user = λ _. true;
}

abbrev pub kernel : (second : Bool) → Kernel
kernel second = record {
  region = pos 0;
  devs_allocated = true;
  buffer_allocated = λ i. if i == 0 then true else second;
  garbage = λ _ i. i;
  cdev_add = λ _. pos 0;
}

abbrev pub unloaded : Driver TranslateDev
unloaded = record { region_held = false; devs_held = false; slots = λ _. zero_slot }
