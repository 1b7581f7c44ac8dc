-- ===== src/Translate/Write.antt =====
-- `translate_write` of Aufgabe4_final/translate.c appends to the queue.
use Prim.Native.Nat.{min}
use mathlib.Core.List.{append_assoc, append-nil}
use suse_vm.Prelude.{
  ℕ, zero, suc, ◌+◌, ◌-◌, ◌<◌, ◌≡◌, refl, sym, ◌∙◌, ap, ◌⊎◌, inl, inr, if◌then◌else◌, ◌==◌, List,
  [], ◌∷◌, ◌++◌, map, update, length, Option, none, some, Bool-cases, arith,
}
use suse_vm.Translate.RoundTrip.{IsTable, encoding, encode_char-encoding}
use suse_vm.Translate.Device.{
  Params, TranslateDev, UserSpace, Outcome, copied, efault, stored_char, write_item, write_loop,
  translate_write,
}
use suse_vm.Translate.Ends.{contents-scribble, pushed, IsRing-pushed, contents-pushed}
use suse_vm.Translate.Queue.{contents, IsRing}

abbrev go_on : Option ℕ → List ℕ → List ℕ
go_on none cs = []
go_on (some c) cs = c ∷ cs

-- the chars that can be read from address `n` on, at most `k`, up to the first that cannot
unfoldable pub given : UserSpace → ℕ → ℕ → List ℕ
given u n zero = []
given u n (suc k) = go_on (u.from_user n) (given u (suc n) k)

-- the char as a device of this minor number keeps it
abbrev pub stored_as : Params → ℕ → ℕ → ℕ
stored_as m minor c = if minor == 0 then encoding m.translate_subst c else c

-- What a write of at most `k` chars, after `n`, has done to the device `d`.
pub record Appended (m : Params) (u : UserSpace) (n k : ℕ) (d : TranslateDev)
    (r : Outcome × TranslateDev) : Type 0 where
  pub ring : IsRing m r.1
  pub appended : contents m r.1 ≡ contents m d ++ map (stored_as m d.minor) (given u n k)
  pub outcome :
      r.0 ≡ (if length (given u n k) == k then copied (n + length (given u n k)) else efault)
  pub same_minor : r.1.minor ≡ d.minor
  pub same_writer : r.1.writer_open_lock ≡ d.writer_open_lock
  pub same_reader : r.1.reader_open_lock ≡ d.reader_open_lock

pub Option-cases : (o : Option ℕ) → (o ≡ none) ⊎ ((c : ℕ) × (o ≡ some c))
Option-cases none = inl refl
Option-cases (some c) = inr (c, refl)

module _ (m : Params) (u : UserSpace) where
  at_once : (n : ℕ) (d : TranslateDev) → IsRing m d → Appended m u n 0 d (copied n, d)
  unfolding given length
  at_once n d ring = record {
    ring = ring;
    appended = sym (append-nil (contents m d));
    outcome = ap copied (omega arith);
    same_minor = refl;
    same_writer = refl;
    same_reader = refl;
  }

  pub given_refused : (n k : ℕ) → u.from_user n ≡ none → given u n (suc k) ≡ []
  unfolding given
  given_refused n k fails = rw fails refl

  pub given_read : (n k c : ℕ) → u.from_user n ≡ some c → given u n (suc k) ≡ c ∷ given u (suc n) k
  unfolding given
  given_read n k c reads = rw reads refl

  scribbled :
      (n k : ℕ) (d : TranslateDev) (x : ℕ)
      → IsRing m d
      → d.items < m.translate_bufsize
      → u.from_user n ≡ none
      → Appended m u n (suc k) d (efault, record d { buffer = update d.buffer d.write_pos x })
  unfolding given length
  scribbled n k d x ring room fails = record {
    ring = record {
      items_le = ring.items_le;
      read_lt = ring.read_lt;
      write_lt = ring.write_lt;
      behind = ring.behind;
    };
    appended =
        rw (given_refused n k fails)
          (contents-scribble m d x ring room ∙ sym (append-nil (contents m d)));
    outcome = rw (given_refused n k fails) (ground arith);
    same_minor = refl;
    same_writer = refl;
    same_reader = refl;
  }

  module _ (t : IsTable m.translate_subst) where
    stored_char-stored_as :
        (d : TranslateDev) (c : ℕ) → stored_char m u d c ≡ some (stored_as m d.minor c)
    unfolding stored_char
    stored_char-stored_as d c = elim (Bool-cases (d.minor == 0)) [
      | inl first ↦ rw first (encode_char-encoding t c)
      | inr other ↦ rw other refl
    ]

    Appended-pushed :
        (n k c : ℕ) (d : TranslateDev) {r : Outcome × TranslateDev}
        → IsRing m d
        → d.items < m.translate_bufsize
        → u.from_user n ≡ some c
        → Appended m u (suc n) k (pushed m d (stored_as m d.minor c)) r
        → Appended m u n (suc k) d r
    unfolding length
    Appended-pushed n k c d ring room reads a = record {
      ring = a.ring;
      appended =
          a.appended
          ∙ rw (given_read n k c reads, contents-pushed m d (stored_as m d.minor c) ring room)
              (append_assoc (contents m d) (stored_as m d.minor c ∷ [])
                (map (stored_as m d.minor) (given u (suc n) k)));
      outcome = a.outcome ∙ rw (given_read n k c reads) (ground arith);
      same_minor = a.same_minor;
      same_writer = a.same_writer;
      same_reader = a.same_reader;
    }

    write_loop-Appended :
        (left n : ℕ) (d : TranslateDev)
        → IsRing m d
        → Appended m u n (min left (m.translate_bufsize - d.items)) d (write_loop m u left n d)
    unfolding write_loop write_item
    write_loop-Appended zero n d ring =
        let k : min 0 (m.translate_bufsize - d.items) ≡ 0 = omega arith in rw k (at_once n d ring)
    write_loop-Appended (suc left) n d ring = elim (Bool-cases (d.items == m.translate_bufsize)) [
      | inl full ↦
          let k : min (suc left) (m.translate_bufsize - d.items) ≡ 0 = ground arith in
          rw (full, k) (at_once n d ring)
      | inr room ↦
          let l : d.items < m.translate_bufsize = let i = ring.items_le in ground arith in
          let k : min (suc left) (m.translate_bufsize - d.items)
              ≡ suc (min left (m.translate_bufsize - (d.items + 1))) =
            omega arith in
          rw (room, k)
            (elim (Option-cases (u.from_user n)) [
              | inl refused ↦ rw refused (scribbled n _ d (u.left_behind n) ring l refused)
              | inr (c, reads) ↦
                  rw (reads, stored_char-stored_as d c)
                    (Appended-pushed n _ c d ring l reads (
                      write_loop-Appended left (suc n) (pushed m d (stored_as m d.minor c))
                        (IsRing-pushed m d _ ring l)))
            ])
    ]

-- A write to a sound device, over a string with one place for each letter, each letter in it once: with `k` the number of chars that the
-- call asks to write or of the free places, whichever is less, the first `k` chars of the process
-- are appended in order, encoded by translate0, and `k` is returned. If one of them cannot be read,
-- those before it are appended and `-EFAULT` is returned. The device stays sound.
pub translate_write-Appended :
    (m : Params) (u : UserSpace) (count : ℕ) (d : TranslateDev)
    → IsTable m.translate_subst
    → IsRing m d
    → Appended m u 0 (min count (m.translate_bufsize - d.items)) d (translate_write m u count d)
unfolding translate_write
translate_write-Appended m u count d t ring = write_loop-Appended m u t count 0 d ring
