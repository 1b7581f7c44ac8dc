-- ===== src/Vorlauf/Same.antt =====
-- Where both return, the writes of Aufgabe4/vorlauf and of Aufgabe4_final do the same.
use Prim.Native.Nat.{min}
use suse_vm.Prelude.{
  Bool, ℕ, zero, suc, ◌-◌, ◌<◌, ◌≡◌, refl, sym, ◌∙◌, ap, ◌==◌, List, [], ◌∷◌, ◌++◌, map, length,
  none, Bool-cases, arith, inl, inr, ◌≢◌,
}
use suse_vm.Translate.Device as Final
use suse_vm.Translate.Device.{Params, UserSpace}
use suse_vm.Translate.Queue.{contents}
use suse_vm.Translate.RoundTrip.{IsTable}
use suse_vm.Translate.Write.{given, stored_as, Option-cases, translate_write-Appended}
use suse_vm.Vorlauf.Device as Waiting
use suse_vm.Vorlauf.Device.{TranslateDev}
use suse_vm.Vorlauf.Counted.{IsCounted, kept_as}
use suse_vm.Vorlauf.SameChars.{encode_same}
use suse_vm.Vorlauf.Write.{translate_write-Counted}

kept_as-stored_as :
    (m : Params) (minor c : ℕ) → IsTable m.translate_subst → kept_as m minor c ≡ stored_as m minor c
kept_as-stored_as m minor c t = elim (Bool-cases (minor == 0)) [
  | inl e ↦ rw e ((encode_same m.translate_subst c t.length).0)
  | inr e ↦ rw e refl
]

map_agree : (f g : ℕ → ℕ) (xs : List ℕ) → ((x : ℕ) → f x ≡ g x) → map f xs ≡ map g xs
map_agree f g [] e = refl
map_agree f g (x ∷ xs) e = rw (e x, map_agree f g xs e) refl

given_all : (u : UserSpace) (n k : ℕ) → ((i : ℕ) → u.from_user i ≢ none) → length (given u n k) ≡ k
unfolding given length
given_all u n zero all = refl
given_all u n (suc k) all = elim (Option-cases (u.from_user n)) [
  | inl fails ↦ absurd (all n fails)
  | inr (x, reads) ↦ rw (reads, given_all u (suc n) k all) (omega arith)
]

-- On a device whose semaphores count its sound ring, with a table for a string, the write of
-- Aufgabe4/vorlauf leaves the chars that the write of Aufgabe4_final leaves.
pub translate_write_same :
    (m : Params) (u : UserSpace) (signalled : Bool) (count : ℕ) (d : TranslateDev)
    → IsTable m.translate_subst
    → IsCounted m d
    → contents m (Waiting.translate_write m u signalled count d).1.shared
      ≡ contents m (Final.translate_write m u count d.shared).1
translate_write_same m u signalled count d t c =
    let f = c.free in
    let free : m.translate_bufsize - d.shared.items ≡ d.free_buffer_space = omega arith in
    let k = min count d.free_buffer_space in
    let w = translate_write-Counted m u signalled count d c in
    let v = rw free at (translate_write-Appended m u count d.shared t c.ring) in
    w.appended
    ∙ ap (λ cs. contents m d.shared ++ cs)
        (map_agree (kept_as m d.shared.minor) (stored_as m d.shared.minor) (given u 0 k)
          (λ x. kept_as-stored_as m d.shared.minor x t))
    ∙ sym (v.appended)

-- On a device whose semaphores count its sound ring and on which a place is free, with a table for a
-- string, and for a process whose chars can all be read, the writes of Aufgabe4/vorlauf and
-- Aufgabe4_final return the same number of chars.
pub translate_write_count_same :
    (m : Params) (u : UserSpace) (signalled : Bool) (count : ℕ) (d : TranslateDev)
    → IsTable m.translate_subst
    → IsCounted m d
    → 0 < d.free_buffer_space
    → ((i : ℕ) → u.from_user i ≢ none)
    → (k : ℕ) × ((Waiting.translate_write m u signalled count d).0 ≡ Waiting.copied k)
      × ((Final.translate_write m u count d.shared).0 ≡ Final.copied k)
translate_write_count_same m u signalled count d t c some_free all =
    let f = c.free in
    let free : m.translate_bufsize - d.shared.items ≡ d.free_buffer_space = omega arith in
    let k = min count d.free_buffer_space in
    let w = translate_write-Counted m u signalled count d c in
    let v = rw free at (translate_write-Appended m u count d.shared t c.ring) in
    (
      k,
      w.outcome ∙ rw (given_all u 0 k all) (ground arith),
      v.outcome ∙ rw (given_all u 0 k all) (ground arith),
    )
