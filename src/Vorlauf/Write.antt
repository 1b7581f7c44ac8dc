-- ===== src/Vorlauf/Write.antt =====
-- `translate_write` of Aufgabe4/vorlauf appends to the queue, or waits for a place.
use Prim.Native.Nat.{min}
use mathlib.Core.List.{append_assoc, append-nil}
use suse_vm.Prelude.{
  ℕ, zero, suc, ◌+◌, ◌-◌, ◌<◌, ◌≡◌, refl, sym, ◌∙◌, ap, inl, inr, ltb, [], ◌∷◌, ◌++◌, map, update,
  length, none, some, Bool-cases, arith, Bool,
}
use suse_vm.Translate.Device.{Params, UserSpace}
use suse_vm.Translate.Queue.{contents}
use suse_vm.Translate.Write.{given, given_refused, given_read, Option-cases}
use suse_vm.Translate.Ends.{contents-scribble, pushed, IsRing-pushed, contents-pushed}
use suse_vm.Vorlauf.Device.{
  copy_failed, TranslateDev, Outcome, copied, acquire, write_item, write_loop, translate_write,
}
use suse_vm.Vorlauf.Counted.{IsCounted, kept_as, ending, acquire-zero, acquire-more}

-- What a write with `left` chars to go, after `n`, has done to the device `d`.
pub record Appended (m : Params) (u : UserSpace) (signalled : Bool) (n left : ℕ) (d : TranslateDev)
    (r : Outcome × TranslateDev) : Type 0 where
  pub counted : IsCounted m r.1
  pub appended :
      contents m r.1.shared
      ≡ contents m d.shared
        ++ map (kept_as m d.shared.minor) (given u n (min left d.free_buffer_space))
  pub outcome :
      r.0
      ≡ ending signalled n left
          (min left d.free_buffer_space)
          (length (given u n (min left d.free_buffer_space)))
  pub same_minor : r.1.shared.minor ≡ d.shared.minor
  pub same_writer : r.1.shared.writer_open_lock ≡ d.shared.writer_open_lock
  pub same_reader : r.1.shared.reader_open_lock ≡ d.shared.reader_open_lock

module _ (m : Params) (u : UserSpace) (signalled : Bool) where
  unchanged :
      (n left : ℕ) (d : TranslateDev) (r : Outcome)
      → IsCounted m d
      → min left d.free_buffer_space ≡ 0
      → r ≡ ending signalled n left 0 0
      → Appended m u signalled n left d (r, d)
  unfolding given length
  unchanged n left d r c k e = record {
    counted = c;
    appended = rw k (sym (append-nil (contents m d.shared)));
    outcome = rw k e;
    same_minor = refl;
    same_writer = refl;
    same_reader = refl;
  }

  -- the device after a char was put in
  abbrev filled : TranslateDev → ℕ → TranslateDev
  filled d e = record d {
    shared = pushed m d.shared e;
    items_in_buffer = d.items_in_buffer + 1;
    free_buffer_space = d.free_buffer_space - 1;
  }

  module _ (d : TranslateDev) (c : IsCounted m d) (free : 0 < d.free_buffer_space) where
    room : d.shared.items < m.translate_bufsize
    room = let f = c.free in omega arith

    IsCounted-filled : (e : ℕ) → IsCounted m (filled d e)
    IsCounted-filled e =
        let f = c.free in
        let i = c.filled in
        record {
          ring = IsRing-pushed m d.shared e c.ring room;
          filled = omega arith;
          free = omega arith;
        }

    module _ (n left : ℕ) where
      more : min (suc left) d.free_buffer_space ≡ suc (min left (d.free_buffer_space - 1))
      more = omega arith

      Appended-refused :
          u.from_user n ≡ none
          → Appended m u signalled n (suc left) d (
            copy_failed n,
            record d {
              shared = record d.shared {
                buffer = update d.shared.buffer d.shared.write_pos (u.left_behind n);
              };
              free_buffer_space = d.free_buffer_space - 1 + 1;
            },
          )
      unfolding length
      Appended-refused fails =
          let f = c.free in
          let nothing : given u n (min (suc left) d.free_buffer_space) ≡ [] =
            rw more (given_refused m u n (min left (d.free_buffer_space - 1)) fails) in
          record {
            counted = record {
              ring = record {
                items_le = c.ring.items_le;
                read_lt = c.ring.read_lt;
                write_lt = c.ring.write_lt;
                behind = c.ring.behind;
              };
              filled = c.filled;
              free = omega arith;
            };
            appended = rw nothing (
                contents-scribble m d.shared (u.left_behind n) c.ring room
                ∙ sym (append-nil (contents m d.shared)));
            outcome = rw (nothing, more) (ground arith);
            same_minor = refl;
            same_writer = refl;
            same_reader = refl;
          }

      Appended-filled :
          (x : ℕ) {r : Outcome × TranslateDev}
          → u.from_user n ≡ some x
          → Appended m u signalled (suc n) left (filled d (kept_as m d.shared.minor x)) r
          → Appended m u signalled n (suc left) d r
      unfolding length
      Appended-filled x {r} reads a =
          let k = min left (d.free_buffer_space - 1) in
          let e = kept_as m d.shared.minor x in
          let one : given u n (min (suc left) d.free_buffer_space) ≡ x ∷ given u (suc n) k =
            rw more (given_read m u n k x reads) in
          record {
            counted = a.counted;
            appended =
                a.appended
                ∙ rw (one, contents-pushed m d.shared e c.ring room)
                    (append_assoc (contents m d.shared) (e ∷ [])
                      (map (kept_as m d.shared.minor) (given u (suc n) k)));
            outcome = a.outcome ∙ rw (one, more) (ground arith);
            same_minor = a.same_minor;
            same_writer = a.same_writer;
            same_reader = a.same_reader;
          }

  write_loop-Appended :
      (left n : ℕ) (d : TranslateDev)
      → IsCounted m d
      → Appended m u signalled n left d (write_loop m u signalled left n d.shared.write_pos d)
  unfolding write_loop write_item
  write_loop-Appended zero n d c = unchanged n zero d (copied n) c (omega arith) (ground arith)
  write_loop-Appended (suc left) n d c = elim (Bool-cases (ltb 0 d.free_buffer_space)) [
    | inl free ↦
        let l : 0 < d.free_buffer_space = ground arith in
        rw (acquire-more signalled n d.free_buffer_space l) (elim (Option-cases (u.from_user n)) [
          | inl fails ↦ rw fails (Appended-refused d c l n left fails)
          | inr (x, reads) ↦ rw reads (
              Appended-filled d c l n left x reads (
                write_loop-Appended left (suc n) (filled d (kept_as m d.shared.minor x))
                  (IsCounted-filled d c l (kept_as m d.shared.minor x))))
        ])
    | inr none_free ↦
        let z : d.free_buffer_space ≡ 0 = ground arith in
        let k : min (suc left) d.free_buffer_space ≡ 0 = omega arith in
        rw (ap (acquire signalled n) z ∙ acquire-zero signalled n)
          (unchanged n (suc left) d _ c k (ground arith))
  ]

-- A write to a device whose semaphores count its sound ring: with `k` the number of chars that the
-- call asks to write or of the free places, whichever is less, the first `k` chars of the process are
-- appended in order, encoded by translate0, or those before the first that cannot be read. It
-- returns the number of chars appended, if that is not 0; otherwise 0 if nothing was asked for,
-- -EFAULT if the first char cannot be read, and if no place is free it sleeps or returns
-- -ERESTARTSYS on a signal. The semaphores count the ring after it.
pub translate_write-Counted :
    (m : Params) (u : UserSpace) (signalled : Bool) (count : ℕ) (d : TranslateDev)
    → IsCounted m d
    → Appended m u signalled 0 count d (translate_write m u signalled count d)
unfolding translate_write
translate_write-Counted m u signalled count d c = write_loop-Appended m u signalled count 0 d c
