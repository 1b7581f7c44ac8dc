-- ===== src/Vorlauf/Wakes.antt =====
-- Who sleeps in a device of Aufgabe4/vorlauf, and what lets him go on.
use Prim.Native.Nat.{min}
use suse_vm.Prelude.{
  length-ring_from, ℕ, suc, ◌+◌, ◌-◌, ◌<◌, ◌≡◌, ◌≢◌, refl, sym, ◌∙◌, ap, ◌==◌, Bool, true, false,
  inl, inr, Bool-cases, length, drop, length-drop, List, map, ◌++◌, some, arith, [], ◌∷◌,
}
use suse_vm.Translate.Device.{Params, UserSpace}
use suse_vm.Translate.Write.{given, given_read}
use suse_vm.Translate.Read.{taken, taken_one, map_head}
use suse_vm.Translate.Queue.{contents}
use suse_vm.Vorlauf.Device.{TranslateDev, Outcome, asleep, translate_write, translate_read}
use suse_vm.Vorlauf.Counted.{kept_as, handed_as, IsCounted, ending}
use suse_vm.Vorlauf.Write.{translate_write-Counted}
use suse_vm.Vorlauf.Read.{translate_read-Counted}

abbrev is_asleep : Outcome → Bool
is_asleep asleep = true
is_asleep _ = false

-- Only a call that has done nothing and finds no place sleeps.
ending-asleep :
    (signalled : Bool) (n left k a : ℕ)
    → ending signalled n left k a ≡ asleep
    → (n + k ≡ 0) × (k ≢ left)
ending-asleep signalled n left k a e =
    let s : is_asleep (ending signalled n left k a) ≡ true = ap is_asleep e in ground arith

length-map_head : (f : ℕ → ℕ) (xs : List ℕ) → length (map_head f xs) ≡ length xs
unfolding length
length-map_head f [] = refl
length-map_head f (x ∷ xs) = refl

nonempty : (q xs : List ℕ) (x : ℕ) → 0 < length (q ++ (x ∷ xs))
unfolding length
nonempty [] xs x = omega arith
nonempty (y ∷ q) xs x = omega arith

items-contents : (m : Params) (d : TranslateDev) → d.shared.items ≡ length (contents m d.shared)
items-contents m d =
    sym (length-ring_from m.translate_bufsize d.shared.buffer d.shared.read_pos d.shared.items)

module _ (m : Params) (signalled : Bool) {d : TranslateDev} (c : IsCounted m d) where
  read-asleep :
      (u : UserSpace) (count : ℕ)
      → (translate_read m u signalled count d).0 ≡ asleep
      → d.shared.items ≡ 0
  read-asleep u count e =
      let r = translate_read-Counted m u signalled count d c in
      let k = min count d.shared.items in
      let s = ending-asleep signalled 0 count k (taken u 0 k) (sym r.outcome ∙ e) in
      omega (arith, s.0, s.1)

  write-asleep :
      (u : UserSpace) (count : ℕ)
      → (translate_write m u signalled count d).0 ≡ asleep
      → d.free_buffer_space ≡ 0
  write-asleep u count e =
      let r = translate_write-Counted m u signalled count d c in
      let k = min count d.free_buffer_space in
      let s = ending-asleep signalled 0 count k (length (given u 0 k)) (sym r.outcome ∙ e) in
      omega (arith, s.0, s.1)

  -- the items after a write, and after a read
  items-written :
      (u : UserSpace) (count x : ℕ)
      → 0 < d.free_buffer_space
      → u.from_user 0 ≡ some x
      → 0 < (translate_write m u signalled (suc count) d).1.shared.items
  items-written u count x h reads =
      let w = translate_write-Counted m u signalled (suc count) d c in
      let f = kept_as m d.shared.minor in
      let j = min count (d.free_buffer_space - 1) in
      let k : min (suc count) d.free_buffer_space ≡ suc j = omega arith in
      rw
        (
          items-contents m (translate_write m u signalled (suc count) d).1,
          w.appended,
          k,
          given_read m u 0 j x reads,
        )
        (nonempty (contents m d.shared) (map f (given u 1 j)) (f x))

  items-read :
      (u : UserSpace) (count : ℕ)
      → 0 < d.shared.items
      → u.to_user 0 ≡ true
      → (translate_read m u signalled (suc count) d).2.shared.items < d.shared.items
  items-read u count h allowed =
      let r = translate_read-Counted m u signalled (suc count) d c in
      let h' = handed_as m d.shared.minor in
      let q = contents m d.shared in
      let j = min count (d.shared.items - 1) in
      let k : min (suc count) d.shared.items ≡ suc j = omega arith in
      let one : taken u 0 (suc j) ≡ suc (taken u 1 j) = taken_one m u 0 j allowed in
      let remaining = rw (k, one) at r.remaining in
      let n = items-contents m d in
      rw (items-contents m (translate_read m u signalled (suc count) d).2, remaining)
        (elim (Bool-cases (suc (taken u 1 j) == suc j)) [
          | inl all ↦ rw (all, length-drop (suc j) q) (omega arith)
          | inr part ↦
              rw
                (
                  part,
                  length-map_head h' (drop (suc (taken u 1 j)) q),
                  length-drop (suc (taken u 1 j)) q,
                )
                (omega arith)
        ])

-- On a device whose semaphores count its sound ring, of at least one place: a reader who sleeps does
-- not sleep any more after a write of at least one char, the first of which can be read.
pub reader_wakes :
    (m : Params) (signalled : Bool) (d : TranslateDev) (u v : UserSpace) (a b x : ℕ)
    → IsCounted m d
    → 0 < m.translate_bufsize
    → u.from_user 0 ≡ some x
    → (translate_read m v signalled a d).0 ≡ asleep
    → (translate_read m v signalled a (translate_write m u signalled (suc b) d).1).0 ≢ asleep
reader_wakes m signalled d u v a b x c size reads reader again =
    let f = c.free in
    let w = translate_write-Counted m u signalled (suc b) d c in
    let none = read-asleep m signalled c v a reader in
    let more = items-written m signalled c u b x (omega arith) reads in
    absurd (omega (arith, more, read-asleep m signalled w.counted v a again))

-- On a device whose semaphores count its sound ring, of at least one place: a writer who sleeps does
-- not sleep any more after a read of at least one char, the first of which can be handed over.
pub writer_wakes :
    (m : Params) (signalled : Bool) (d : TranslateDev) (u v : UserSpace) (a b : ℕ)
    → IsCounted m d
    → 0 < m.translate_bufsize
    → v.to_user 0 ≡ true
    → (translate_write m u signalled a d).0 ≡ asleep
    → (translate_write m u signalled a (translate_read m v signalled (suc b) d).2).0 ≢ asleep
writer_wakes m signalled d u v a b c size allowed writer again =
    let f = c.free in
    let r = translate_read-Counted m v signalled (suc b) d c in
    let full = write-asleep m signalled c u a writer in
    let fewer = items-read m signalled c v b (omega arith) allowed in
    let f' = r.counted.free in
    absurd (omega (arith, fewer, write-asleep m signalled r.counted u a again))
