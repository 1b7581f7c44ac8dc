-- ===== src/Translate/Together/Conserve.antt =====
-- Where the counter is changed in one piece, no interleaving of the writer and the reader loses,
-- doubles or reorders a char, and only a failed copy to the reader has a char decoded again.
use mathlib.Core.List.{append-nil}
use suse_vm.Prelude.{◌+◌, ◌-◌, refl, sym, ap, true, [], arith}
use suse_vm.Translate.Device.{Params, TranslateDev, UserSpace}
use suse_vm.Translate.Queue.{contents, IsRing}
use suse_vm.Translate.Together.{
  outside, has_room, stored, away, has_item, Together, Turn, find_room, put, give_up, move_on,
  count_up, load_up, store_up, find_item, decode, hand_over, refuse, count_down, load_down,
  store_down, Turns, none_yet, further, before,
}
use suse_vm.Translate.Together.Flow.{
  uncounted, intends, overcounted, wants, in_hand, none_out, fresh, Flows, Inv, writer-on,
  reader-on,
}
use suse_vm.Translate.Together.Ring.{
  writer-scribbles, writer-moves, reader-decodes, reader-hands_over, reader-refused,
}

before-Inv : (m : Params) (u : UserSpace) (d : TranslateDev) → IsRing m d → Inv m u d (before d)
before-Inv m u d r =
    let le = r.items_le in
    record {
      flows = record {
        held = d.items;
        count = refl;
        ring = r;
        out = [];
        queued = contents m d;
        came_in = append-nil (contents m d);
        spent = 0;
        tries = 0;
        refusals = refl;
        went_out = none_out;
        is_there = fresh refl refl;
      };
      room = omega arith;
      enough = omega arith;
      same_minor = refl;
      not_counting = λ k e. cc;
      not_discounting = λ k e. cc;
    }

module _ {m : Params} {u : UserSpace} {d : TranslateDev} where
  Turn-Inv : {s t : Together} → Turn m u true s t → Inv m u d s → Inv m u d t
  Turn-Inv {s} (find_room h e) i =
      let l = i.flows.count in
      let r = i.room in
      writer-on i has_room s.dev.items (omega (arith, ap uncounted h))
        (ground (arith, ap intends h)) i.enough (λ k q. cc)
  Turn-Inv (put c {x} h e) i =
      writer-scribbles i stored x (ap uncounted h) (ap intends h) refl (omega arith) (λ k q. cc)
  Turn-Inv (give_up x h) i =
      writer-scribbles i outside x (ap uncounted h) (ap intends h) refl (omega arith) (λ k q. cc)
  Turn-Inv (move_on h) i = writer-moves i h
  Turn-Inv {s} (count_up w h) i =
      let r = i.room in
      let n = i.enough in
      writer-on i outside (s.dev.items + 1) (omega (arith, ap uncounted h))
        (omega (arith, ap intends h)) (omega arith) (λ k q. cc)
  Turn-Inv (load_up w h) i = absurd (cc)
  Turn-Inv (store_up {n} h) i = absurd (i.not_counting n h)
  Turn-Inv {s} (find_item h e) i =
      let r = i.room in
      reader-on i has_item s.dev.items (ap in_hand (sym h)) (omega (arith, ap overcounted h)) r
        (ground arith) (λ k q. cc)
  Turn-Inv (decode h) i = reader-decodes i h
  Turn-Inv (hand_over h) i = reader-hands_over i h
  Turn-Inv (refuse h) i = reader-refused i h
  Turn-Inv {s} (count_down w h) i =
      let r = i.room in
      let n = i.enough in
      reader-on i away (s.dev.items - 1) (ap in_hand (sym h))
        (omega (arith, ap overcounted h, ap wants h)) (omega arith) (omega arith) (λ k q. cc)
  Turn-Inv (load_down w h) i = absurd (cc)
  Turn-Inv (store_down {n} h) i = absurd (i.not_discounting n h)

  Turns-Inv : {s t : Together} → Inv m u d s → Turns m u true s t → Inv m u d t
  Turns-Inv i none_yet = i
  Turns-Inv i (further r st) = Turn-Inv st (Turns-Inv i r)

-- On a sound device, a writer and a reader at the same time, in any order of their accesses, failed
-- copies on both sides included, with `items` changed in one piece: at all times, the chars that were
-- in the device and those that have come in since, in order, are those that were handed to the reader
-- followed by those still in the ring. Each char that was handed over was decoded once or more often;
-- in the ring, only the front one can have been decoded already. Those decodings beyond the first of
-- each char handed over, and those of the front one, but for one that the reader has just done, add
-- up to the number of failed copies to the reader. The ring is sound for the number of chars that it
-- holds, which differs from `items` only while a process has moved its position and not yet changed
-- `items`.
pub together-Flows :
    (m : Params) (u : UserSpace) (d : TranslateDev)
    → IsRing m d
    → {t : Together} → Turns m u true (before d) t
    → Flows m u d t
together-Flows m u d r q = let i = Turns-Inv (before-Inv m u d r) q in i.flows
