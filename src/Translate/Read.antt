-- ===== src/Translate/Read.antt =====
-- `translate_read` of Aufgabe4_final/translate.c takes from the front of the queue.
use Prim.Native.Nat.{min}
use suse_vm.Prelude.{
  ℕ, zero, suc, ◌+◌, ◌-◌, ◌<◌, ◌≡◌, refl, ◌∙◌, ap, inl, inr, if◌then◌else◌, ◌==◌, List, [], ◌∷◌,
  map, take, drop, Bool-cases, arith, true, false,
}
use suse_vm.Translate.Chars.{decode_char}
use suse_vm.Translate.Device.{
  Params, TranslateDev, UserSpace, Outcome, copied, efault, handed_char, read_item, read_loop,
  translate_read, give,
}
use suse_vm.Translate.Ends.{touched, popped, IsRing-popped, contents-front, contents-touched}
use suse_vm.Translate.Queue.{contents, IsRing}

-- how many of the `k` addresses from `n` on can be written to, up to the first that cannot
unfoldable pub taken : UserSpace → ℕ → ℕ → ℕ
taken u n zero = 0
taken u n (suc k) = let rest = suc (taken u (suc n) k) in if u.to_user n then rest else 0

-- the char as a device of this minor number hands it out
abbrev pub handed_as : Params → ℕ → ℕ → ℕ
handed_as m minor c = if minor == 1 then decode_char m.translate_subst c else c

abbrev pub map_head : (ℕ → ℕ) → List ℕ → List ℕ
map_head f [] = []
map_head f (c ∷ cs) = f c ∷ cs

-- What a read of at most `k` chars, after `n`, has done to the device `d`.
pub record Taken (m : Params) (u : UserSpace) (n k : ℕ) (d : TranslateDev)
    (r : Outcome × List ℕ × TranslateDev) : Type 0 where
  pub ring : IsRing m r.2
  pub received : r.1 ≡ map (handed_as m d.minor) (take (taken u n k) (contents m d))
  pub remaining : contents m r.2 ≡ (
      if taken u n k == k
      then drop k (contents m d)
      else map_head (handed_as m d.minor) (drop (taken u n k) (contents m d)))
  pub outcome : r.0 ≡ (if taken u n k == k then copied (n + k) else efault)
  pub same_minor : r.2.minor ≡ d.minor
  pub same_writer : r.2.writer_open_lock ≡ d.writer_open_lock
  pub same_reader : r.2.reader_open_lock ≡ d.reader_open_lock

module _ (m : Params) (u : UserSpace) where
  at_once : (n : ℕ) (d : TranslateDev) → IsRing m d → Taken m u n 0 d (copied n, [], d)
  unfolding taken take drop
  at_once n d ring = record {
    ring = ring;
    received = refl;
    remaining = refl;
    outcome = ap copied (omega arith);
    same_minor = refl;
    same_writer = refl;
    same_reader = refl;
  }

  pub taken_refused : (n k : ℕ) → u.to_user n ≡ false → taken u n (suc k) ≡ 0
  unfolding taken
  taken_refused n k e = rw e refl

  pub taken_one : (n k : ℕ) → u.to_user n ≡ true → taken u n (suc k) ≡ suc (taken u (suc n) k)
  unfolding taken
  taken_one n k e = rw e refl

  module _ (n k : ℕ) (d : TranslateDev) (i : IsRing m d) (some_item : 0 < d.items) where
    abbrev front : ℕ
    front = handed_as m d.minor (d.buffer d.read_pos)

    Taken-touched : u.to_user n ≡ false → Taken m u n (suc k) d (efault, [], touched m d front)
    unfolding take drop
    Taken-touched refused = record {
      ring = record {
        items_le = i.items_le;
        read_lt = i.read_lt;
        write_lt = i.write_lt;
        behind = i.behind;
      };
      received = rw (taken_refused n k refused) refl;
      remaining =
          rw
            (
              taken_refused n k refused,
              contents-touched m d front i some_item,
              contents-front m d front i some_item,
            )
            (ground arith);
      outcome = rw (taken_refused n k refused) (ground arith);
      same_minor = refl;
      same_writer = refl;
      same_reader = refl;
    }

    Taken-popped :
        {r : Outcome × List ℕ × TranslateDev}
        → u.to_user n ≡ true
        → Taken m u (suc n) k (popped m d front) r
        → Taken m u n (suc k) d (give m u front r)
    unfolding take drop
    Taken-popped allowed t = record {
      ring = t.ring;
      received =
          rw (taken_one n k allowed, contents-front m d front i some_item)
            (ap (λ cs. front ∷ cs) t.received);
      remaining =
          rw (taken_one n k allowed, contents-front m d front i some_item)
            (t.remaining ∙ ground arith);
      outcome = t.outcome ∙ rw (taken_one n k allowed) (ground arith);
      same_minor = t.same_minor;
      same_writer = t.same_writer;
      same_reader = t.same_reader;
    }

  read_loop-Taken :
      (left n : ℕ) (d : TranslateDev)
      → IsRing m d
      → Taken m u n (min left d.items) d (read_loop m u left n d)
  unfolding read_loop read_item handed_char
  read_loop-Taken zero n d i = let k : min 0 d.items ≡ 0 = omega arith in rw k (at_once n d i)
  read_loop-Taken (suc left) n d i = elim (Bool-cases (d.items == 0)) [
    | inl empty ↦ let k : min (suc left) d.items ≡ 0 = ground arith in rw (empty, k) (at_once n d i)
    | inr more ↦
        let l : 0 < d.items = ground arith in
        let k : min (suc left) d.items ≡ suc (min left (d.items - 1)) = omega arith in
        rw (more, k)
          (elim (Bool-cases (u.to_user n)) [
            | inl allowed ↦ rw allowed (
                Taken-popped n _ d i l allowed (
                  read_loop-Taken left (suc n) (popped m d (front n 0 d i l))
                    (IsRing-popped m d _ i l)))
            | inr refused ↦ rw refused (Taken-touched n _ d i l refused)
          ])
  ]

-- A read from a sound device: with `k` the number of chars that the call asks for or of the items,
-- whichever is less, the oldest `k` chars are taken out and handed over in order, decoded by
-- translate1, and `k` is returned. If the process's memory refuses one, those before it are taken and
-- handed over, the refused one stays in front, decoded, and `-EFAULT` is returned. The device stays
-- sound.
pub translate_read-Taken :
    (m : Params) (u : UserSpace) (count : ℕ) (d : TranslateDev)
    → IsRing m d
    → Taken m u 0 (min count d.items) d (translate_read m u count d)
unfolding translate_read
translate_read-Taken m u count d i = read_loop-Taken m u count 0 d i
