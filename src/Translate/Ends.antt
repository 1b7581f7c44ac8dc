-- ===== src/Translate/Ends.antt =====
-- The two ends of the ring buffer of Aufgabe4_final/translate.c: what a store at the writer's position,
-- a new char, a store at the reader's position and a taken char do to the queue.
use suse_vm.Prelude.{
  ℕ, suc, ◌+◌, ◌-◌, ◌%◌, ◌<◌, ◌≡◌, refl, ap, [], ◌∷◌, ◌++◌, update, update_self, arith,
}
use suse_vm.Translate.Device.{Params, TranslateDev}
use suse_vm.Prelude.{
  ring_from, next_pos, distance, mod-next_pos, ring_from-update, ring_from-snoc, ring_from-cons,
}
use suse_vm.Translate.Queue.{contents, IsRing}

module _ (m : Params) where
  -- What stands at the writer's position is not in the queue.
  pub contents-scribble :
      (d : TranslateDev) (x : ℕ)
      → IsRing m d
      → d.items < m.translate_bufsize
      → contents m (record d { buffer = update d.buffer d.write_pos x }) ≡ contents m d
  contents-scribble d x i l =
      let b = i.behind in
      ring_from-update m.translate_bufsize d.buffer d.write_pos x d.read_pos d.items i.read_lt
        i.write_lt (ground arith)

  -- the device with one more char
  abbrev pub pushed : TranslateDev → ℕ → TranslateDev
  pushed d e = record d {
    buffer = update d.buffer d.write_pos e;
    write_pos = (d.write_pos + 1) % m.translate_bufsize;
    items = d.items + 1;
  }

  pub IsRing-pushed :
      (d : TranslateDev) (e : ℕ)
      → IsRing m d
      → d.items < m.translate_bufsize
      → IsRing m (pushed d e)
  IsRing-pushed d e i l =
      let b = i.behind in
      let w = i.write_lt in
      let r = i.read_lt in
      let step = mod-next_pos m.translate_bufsize d.write_pos w in
      record {
        items_le = omega arith;
        read_lt = i.read_lt;
        write_lt = rw step (ground arith);
        behind = rw step (ground arith);
      }

  distance-items :
      (d : TranslateDev)
      → IsRing m d
      → d.items < m.translate_bufsize
      → distance m.translate_bufsize d.read_pos d.write_pos ≡ d.items
  distance-items d i l = let b = i.behind in let w = i.write_lt in let r = i.read_lt in ground arith

  pub contents-pushed :
      (d : TranslateDev) (e : ℕ)
      → IsRing m d
      → d.items < m.translate_bufsize
      → contents m (pushed d e) ≡ contents m d ++ (e ∷ [])
  contents-pushed d e i l =
      let s = m.translate_bufsize in
      let b = update d.buffer d.write_pos e in
      let one : d.items + 1 ≡ suc d.items = omega arith in
      rw
        (
          one,
          ring_from-snoc s b d.write_pos d.read_pos d.items i.read_lt i.write_lt
              (distance-items d i l),
          update_self d.buffer d.write_pos e,
        )
        (ap (λ xs. xs ++ (e ∷ [])) (contents-scribble d e i l))

  -- the device after its oldest char was overwritten, and after it was taken
  abbrev pub touched : TranslateDev → ℕ → TranslateDev
  touched d c = record d { buffer = update d.buffer d.read_pos c }

  abbrev pub popped : TranslateDev → ℕ → TranslateDev
  popped d c = record (touched d c) {
    read_pos = (d.read_pos + 1) % m.translate_bufsize;
    items = d.items - 1;
  }

  module _ (d : TranslateDev) (c : ℕ) (i : IsRing m d) (some_item : 0 < d.items) where
    pub IsRing-popped : IsRing m (popped d c)
    IsRing-popped =
        let b = i.behind in
        let w = i.write_lt in
        let r = i.read_lt in
        let n = i.items_le in
        let step = mod-next_pos m.translate_bufsize d.read_pos r in
        record {
          items_le = omega arith;
          read_lt = rw step (ground arith);
          write_lt = i.write_lt;
          behind = rw step (ground arith);
        }

    contents-popped :
        contents m (popped d c)
        ≡ ring_from m.translate_bufsize d.buffer
            (next_pos m.translate_bufsize d.read_pos)
            (d.items - 1)
    contents-popped =
        let r = i.read_lt in
        let n = i.items_le in
        rw (mod-next_pos m.translate_bufsize d.read_pos i.read_lt) (
          ring_from-update m.translate_bufsize d.buffer d.read_pos c _ (d.items - 1) (ground arith)
            i.read_lt (ground arith))

    pub contents-front : contents m d ≡ d.buffer d.read_pos ∷ contents m (popped d c)
    contents-front =
        rw contents-popped
          (ring_from-cons m.translate_bufsize d.buffer d.read_pos d.items some_item)

    pub contents-touched : contents m (touched d c) ≡ c ∷ contents m (popped d c)
    contents-touched =
        rw
          (
            mod-next_pos m.translate_bufsize d.read_pos i.read_lt,
            ring_from-cons m.translate_bufsize (update d.buffer d.read_pos c) d.read_pos d.items
                some_item,
            update_self d.buffer d.read_pos c,
          )
          refl
