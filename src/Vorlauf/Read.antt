-- ===== src/Vorlauf/Read.antt =====
-- `translate_read` of Aufgabe4/vorlauf takes from the front of the queue, or waits for an item.
use Prim.Native.Nat.{min}
use suse_vm.Prelude.{
  ℕ, zero, suc, ◌+◌, ◌-◌, ◌<◌, ◌≡◌, refl, ◌∙◌, ap, inl, inr, ltb, if◌then◌else◌, ◌==◌, List, [],
  ◌∷◌, map, take, drop, Bool-cases, arith, Bool, true, false,
}
use suse_vm.Translate.Device.{Params, UserSpace}
use suse_vm.Translate.Queue.{contents}
use suse_vm.Translate.Read.{taken, taken_refused, taken_one, map_head}
use suse_vm.Translate.Ends.{touched, popped, IsRing-popped, contents-front, contents-touched}
use suse_vm.Vorlauf.Device.{
  TranslateDev, Outcome, copied, copy_failed, acquire, read_item, read_loop, translate_read,
}
use suse_vm.Vorlauf.Counted.{IsCounted, handed_as, ending, acquire-zero, acquire-more}

-- What a read with `left` chars to go, after `n`, has done to the device `d`.
pub record Taken (m : Params) (u : UserSpace) (signalled : Bool) (n left : ℕ) (d : TranslateDev)
    (r : Outcome × List ℕ × TranslateDev) : Type 0 where
  pub counted : IsCounted m r.2
  pub received :
      r.1
      ≡ map
          (handed_as m d.shared.minor)
          (take (taken u n (min left d.shared.items)) (contents m d.shared))
  pub remaining : contents m r.2.shared ≡ (
      if taken u n (min left d.shared.items) == min left d.shared.items
      then drop (min left d.shared.items) (contents m d.shared)
      else map_head
          (handed_as m d.shared.minor)
          (drop (taken u n (min left d.shared.items)) (contents m d.shared)))
  pub outcome :
      r.0 ≡ ending signalled n left (min left d.shared.items) (taken u n (min left d.shared.items))
  pub same_minor : r.2.shared.minor ≡ d.shared.minor
  pub same_writer : r.2.shared.writer_open_lock ≡ d.shared.writer_open_lock
  pub same_reader : r.2.shared.reader_open_lock ≡ d.shared.reader_open_lock

module _ (m : Params) (u : UserSpace) (signalled : Bool) where
  unchanged :
      (n left : ℕ) (d : TranslateDev) (r : Outcome)
      → IsCounted m d
      → min left d.shared.items ≡ 0
      → r ≡ ending signalled n left 0 0
      → Taken m u signalled n left d (r, [], d)
  unfolding taken take drop
  unchanged n left d r c k e = record {
    counted = c;
    received = rw k refl;
    remaining = rw k refl;
    outcome = rw k e;
    same_minor = refl;
    same_writer = refl;
    same_reader = refl;
  }

  -- the device after an item was taken out
  abbrev emptied : TranslateDev → ℕ → TranslateDev
  emptied d c = record d {
    shared = popped m d.shared c;
    items_in_buffer = d.items_in_buffer - 1;
    free_buffer_space = d.free_buffer_space + 1;
  }

  module _ (d : TranslateDev) (c : IsCounted m d) (some_item : 0 < d.shared.items) where
    abbrev front : ℕ
    front = handed_as m d.shared.minor (d.shared.buffer d.shared.read_pos)

    IsCounted-emptied : IsCounted m (emptied d front)
    IsCounted-emptied =
        let f = c.free in
        let i = c.filled in
        record {
          ring = IsRing-popped m d.shared front c.ring some_item;
          filled = omega arith;
          free = omega arith;
        }

    module _ (n left : ℕ) where
      more : min (suc left) d.shared.items ≡ suc (min left (d.shared.items - 1))
      more = omega arith

      Taken-refused :
          u.to_user n ≡ false
          → Taken m u signalled n (suc left) d (
            copy_failed n,
            [],
            record d {
              shared = touched m d.shared front;
              items_in_buffer = d.items_in_buffer - 1 + 1;
            },
          )
      unfolding take drop
      Taken-refused fails =
          let i = c.filled in
          let k = min left (d.shared.items - 1) in
          let nothing : taken u n (suc k) ≡ 0 = taken_refused m u n k fails in
          record {
            counted = record {
              ring = record {
                items_le = c.ring.items_le;
                read_lt = c.ring.read_lt;
                write_lt = c.ring.write_lt;
                behind = c.ring.behind;
              };
              filled = omega arith;
              free = c.free;
            };
            received = rw (more, nothing) refl;
            remaining =
                rw
                  (
                    more,
                    nothing,
                    contents-touched m d.shared front c.ring some_item,
                    contents-front m d.shared front c.ring some_item,
                  )
                  (ground arith);
            outcome = rw (more, nothing) (ground arith);
            same_minor = refl;
            same_writer = refl;
            same_reader = refl;
          }

      Taken-emptied :
          {r : Outcome × List ℕ × TranslateDev}
          → u.to_user n ≡ true
          → Taken m u signalled (suc n) left (emptied d front) r
          → Taken m u signalled n (suc left) d (r.0, front ∷ r.1, r.2)
      unfolding take drop
      Taken-emptied {r} allowed t =
          let k = min left (d.shared.items - 1) in
          let one : taken u n (suc k) ≡ suc (taken u (suc n) k) = taken_one m u n k allowed in
          record {
            counted = t.counted;
            received =
                rw (more, one, contents-front m d.shared front c.ring some_item)
                  (ap (λ cs. front ∷ cs) t.received);
            remaining =
                rw (more, one, contents-front m d.shared front c.ring some_item)
                  (t.remaining ∙ ground arith);
            outcome = t.outcome ∙ rw (more, one) (ground arith);
            same_minor = t.same_minor;
            same_writer = t.same_writer;
            same_reader = t.same_reader;
          }

  read_loop-Taken :
      (left n : ℕ) (d : TranslateDev)
      → IsCounted m d
      → Taken m u signalled n left d (read_loop m u signalled left n d.shared.read_pos d)
  unfolding read_loop read_item
  read_loop-Taken zero n d c = unchanged n zero d (copied n) c (omega arith) (ground arith)
  read_loop-Taken (suc left) n d c = elim (Bool-cases (ltb 0 d.shared.items)) [
    | inl some_item ↦
        let l : 0 < d.shared.items = ground arith in
        let i = c.filled in
        rw (acquire-more signalled n d.items_in_buffer (omega arith))
          (elim (Bool-cases (u.to_user n)) [
            | inl allowed ↦ rw allowed (
                Taken-emptied d c l n left allowed (
                  read_loop-Taken left (suc n) (emptied d (front d c l)) (IsCounted-emptied d c l)))
            | inr fails ↦ rw fails (Taken-refused d c l n left fails)
          ])
    | inr no_item ↦
        let i = c.filled in
        let z : d.items_in_buffer ≡ 0 = ground arith in
        let k : min (suc left) d.shared.items ≡ 0 = omega arith in
        rw (ap (acquire signalled n) z ∙ acquire-zero signalled n)
          (unchanged n (suc left) d _ c k (ground arith))
  ]

-- A read from a device whose semaphores count its sound ring: with `k` the number of chars that the
-- call asks for or of the items, whichever is less, the oldest `k` chars are taken out and handed
-- over in order, decoded by translate1, or those before the first that the process's memory refuses,
-- which stays in front, decoded. It returns the number of chars handed over, if that is not 0;
-- otherwise 0 if nothing was asked for, -EFAULT if the first char is refused, and if there is no
-- item it sleeps or returns -ERESTARTSYS on a signal. The semaphores count the ring after it.
pub translate_read-Counted :
    (m : Params) (u : UserSpace) (signalled : Bool) (count : ℕ) (d : TranslateDev)
    → IsCounted m d
    → Taken m u signalled 0 count d (translate_read m u signalled count d)
unfolding translate_read
translate_read-Counted m u signalled count d c = read_loop-Taken m u signalled count 0 d c
