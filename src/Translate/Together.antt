-- ===== src/Translate/Together.antt =====
-- One process that writes to a device of Aufgabe4_final/translate.c and one that reads from it at the same
-- time, access by access: `writer_open_lock` and `reader_open_lock` admit one of each, and no lock
-- is held inside of the two loops. `whole` says whether `items++` and `items--` are each done in one
-- piece, as by one instruction on one processor, or as a load and a store. The calls follow one another
-- without end; the local positions are those of the device, since no one else moves them.
pub mod Flow
pub mod Ring
pub mod Conserve
pub mod Miscount
use suse_vm.Prelude.{
  ℕ, ◌+◌, ◌-◌, ◌%◌, ◌≡◌, Bool, true, false, ◌==◌, if◌then◌else◌, List, [], ◌∷◌, ◌++◌, some, update,
}
use suse_vm.Translate.Chars.{encode_char, decode_char}
use suse_vm.Translate.Device.{Params, TranslateDev, UserSpace, stored_char, handed_char}

-- Where the writer stands in a pass of its loop: before the test, after it, with the char stored,
-- with `write_pos` moved, and with `items` loaded.
pub data Writer : Type 0 where
  outside has_room stored moved_on : Writer
  counting : ℕ → Writer

-- Where the reader stands: before the test, after it, with the char decoded, with `read_pos` moved,
-- and with `items` loaded.
pub data Reader : Type 0 where
  away has_item decoded moved : Reader
  discounting : ℕ → Reader

-- The device, the two processes, the chars that came into the ring, those handed to the reader, and
-- how often `copy_to_user` has failed.
pub record Together : Type 0 where
  pub dev : TranslateDev
  pub writer : Writer
  pub reader : Reader
  pub accepted : List ℕ
  pub given : List ℕ
  pub refused : ℕ

module _ (m : Params) (u : UserSpace) where
  pub data Turn (whole : Bool) (s : Together) : Together → Type 0 where
    find_room :
        s.writer ≡ outside
        → (s.dev.items == m.translate_bufsize) ≡ false
        → Turn whole s (record s { writer = has_room })
    put :
        (c : ℕ) {x : ℕ}
        → s.writer ≡ has_room
        → stored_char m u s.dev c ≡ some x
        → Turn whole s (record s {
          dev = record s.dev { buffer = update s.dev.buffer s.dev.write_pos x };
          writer = stored;
        })
    -- `copy_from_user` or the encoding fails, and leaves `x` behind
    give_up :
        (x : ℕ)
        → s.writer ≡ has_room
        → Turn whole s (record s {
          dev = record s.dev { buffer = update s.dev.buffer s.dev.write_pos x };
          writer = outside;
        })
    move_on :
        s.writer ≡ stored
        → Turn whole s (record s {
          dev = record s.dev { write_pos = (s.dev.write_pos + 1) % m.translate_bufsize };
          writer = moved_on;
          accepted = s.accepted ++ s.dev.buffer s.dev.write_pos ∷ [];
        })
    count_up :
        whole ≡ true
        → s.writer ≡ moved_on
        → Turn whole s
            (record s { dev = record s.dev { items = s.dev.items + 1 }; writer = outside })
    load_up :
        whole ≡ false
        → s.writer ≡ moved_on
        → Turn whole s (record s { writer = counting s.dev.items })
    store_up :
        {n : ℕ}
        → s.writer ≡ counting n
        → Turn whole s (record s { dev = record s.dev { items = n + 1 }; writer = outside })
    find_item :
        s.reader ≡ away → (s.dev.items == 0) ≡ false → Turn whole s (record s { reader = has_item })
    decode :
        s.reader ≡ has_item
        → Turn whole s (record s {
          dev = record s.dev {
            buffer =
                update s.dev.buffer s.dev.read_pos
                  (handed_char m u s.dev (s.dev.buffer s.dev.read_pos));
          };
          reader = decoded;
        })
    hand_over :
        s.reader ≡ decoded
        → Turn whole s (record s {
          dev = record s.dev { read_pos = (s.dev.read_pos + 1) % m.translate_bufsize };
          reader = moved;
          given = s.given ++ s.dev.buffer s.dev.read_pos ∷ [];
        })
    -- `copy_to_user` fails: the char stays in front, decoded, and the next call decodes it again
    refuse : s.reader ≡ decoded → Turn whole s (record s { reader = away; refused = s.refused + 1 })
    count_down :
        whole ≡ true
        → s.reader ≡ moved
        → Turn whole s (record s { dev = record s.dev { items = s.dev.items - 1 }; reader = away })
    load_down :
        whole ≡ false
        → s.reader ≡ moved
        → Turn whole s (record s { reader = discounting s.dev.items })
    store_down :
        {n : ℕ}
        → s.reader ≡ discounting n
        → Turn whole s (record s { dev = record s.dev { items = n - 1 }; reader = away })

  pub data Turns (whole : Bool) (s : Together) : Together → Type 0 where
    none_yet : Turns whole s s
    further : {t v : Together} → Turns whole s t → Turn whole t v → Turns whole s v

infixl 5 ◌▷◌
abbrev pub ◌▷◌ :
    {m : Params} {u : UserSpace} {whole : Bool} {s t v : Together}
    → Turns m u whole s t
    → Turn m u whole t v
    → Turns m u whole s v
r ▷ st = further r st

-- both processes before a call
abbrev pub before : TranslateDev → Together
before d = record {
  dev = d;
  writer = outside;
  reader = away;
  accepted = [];
  given = [];
  refused = 0;
}
