-- ===== src/Translate/Stream.antt =====
-- What goes into a device of Aufgabe4_final/translate.c comes out of it, over any sequence of calls;
-- and what goes through translate0 and then translate1 comes out as it went in.
use Prim.Native.Nat.{min}
use mathlib.Core.List.{append_assoc, append-nil, map-append}
use suse_vm.Prelude.{
  ℕ, zero, suc, ◌-◌, ◌≡◌, ◌≢◌, refl, sym, ◌∙◌, ap, ==_refl, List, [], ◌∷◌, ◌++◌, map, take, drop,
  take-append-drop, true,
}
use suse_vm.Translate.RoundTrip.{IsTable, decode_char-encoding}
use suse_vm.Translate.Device.{Params, TranslateDev, UserSpace, translate_write, translate_read}
use suse_vm.Translate.Queue.{contents, IsRing}
use suse_vm.Translate.Write.{given, stored_as, translate_write-Appended}
use suse_vm.Translate.Read.{taken, handed_as, translate_read-Taken}

-- a call that reaches a device, from any process
pub data Call : Type 0 where
  write read : UserSpace → (count : ℕ) → Call

-- What a sequence of calls does: the chars that the device took in, those that it gave out, and the
-- device.
pub record Traffic : Type 0 where
  pub taken_in : List ℕ
  pub given_out : List ℕ
  pub device : TranslateDev

module _ (m : Params) where
  unfoldable pub serve : List Call → TranslateDev → Traffic
  serve [] d = record { taken_in = []; given_out = []; device = d }
  serve (write u count ∷ calls) d =
      let t = serve calls (translate_write m u count d).1 in
      record t { taken_in = given u 0 (min count (m.translate_bufsize - d.items)) ++ t.taken_in }
  serve (read u count ∷ calls) d =
      let r = translate_read m u count d in
      let t = serve calls r.2 in record t { given_out = r.1 ++ t.given_out }

-- No process reads into memory that refuses the char.
unfoldable pub NoneRefused : List Call → Type 0
NoneRefused [] = Unit {0}
NoneRefused (write u count ∷ calls) = NoneRefused calls
NoneRefused (read u count ∷ calls) = ((n : ℕ) → u.to_user n ≡ true) × NoneRefused calls

taken_all : (u : UserSpace) (n k : ℕ) → ((i : ℕ) → u.to_user i ≡ true) → taken u n k ≡ k
unfolding taken
taken_all u n zero all = refl
taken_all u n (suc k) all = rw (all n, taken_all u (suc n) k all) refl

-- The device is sound, and what it gave out and still holds is what it held and took in.
pub record Conserved (m : Params) (d : TranslateDev) (t : Traffic) : Type 0 where
  pub ring : IsRing m t.device
  pub same_minor : t.device.minor ≡ d.minor
  pub chars :
      t.given_out ++ map (handed_as m d.minor) (contents m t.device)
      ≡ map (handed_as m d.minor) (contents m d ++ map (stored_as m d.minor) t.taken_in)

map-split :
    (h : ℕ → ℕ) (k : ℕ) (q more : List ℕ) {front rest : List ℕ}
    → front ≡ map h (take k q)
    → rest ≡ map h (drop k q ++ more)
    → front ++ rest ≡ map h (q ++ more)
map-split h k q more {front} {rest} f r =
    let halves : map h (take k q) ++ map h (drop k q ++ more)
        ≡ map h (take k q ++ (drop k q ++ more)) =
      sym (map-append h (take k q) (drop k q ++ more)) in
    let joined : take k q ++ (drop k q ++ more) ≡ q ++ more =
      sym (append_assoc (take k q) (drop k q) more)
      ∙ ap (λ xs. xs ++ more) (take-append-drop k q) in
    rw (f, r) (halves ∙ ap (map h) joined)

module _ (m : Params) (t : IsTable m.translate_subst) where
  write-Conserved :
      (u : UserSpace) (count : ℕ) (d : TranslateDev) {w : Traffic}
      → IsRing m d
      → Conserved m (translate_write m u count d).1 w
      → Conserved m d (record w {
        taken_in = given u 0 (min count (m.translate_bufsize - d.items)) ++ w.taken_in;
      })
  write-Conserved u count d {w} ring c =
      let a = translate_write-Appended m u count d t ring in
      let g = given u 0 (min count (m.translate_bufsize - d.items)) in
      let e : map (stored_as m d.minor) (g ++ w.taken_in)
          ≡ map (stored_as m d.minor) g ++ map (stored_as m d.minor) w.taken_in =
        map-append (stored_as m d.minor) g w.taken_in in
      let q : (contents m d ++ map (stored_as m d.minor) g) ++ map (stored_as m d.minor) w.taken_in
          ≡ contents m d ++ (map (stored_as m d.minor) g ++ map (stored_as m d.minor) w.taken_in) =
        append_assoc (contents m d) (map (stored_as m d.minor) g)
          (map (stored_as m d.minor) w.taken_in) in
      record {
        ring = c.ring;
        same_minor = c.same_minor ∙ a.same_minor;
        chars =
            (rw (a.same_minor, a.appended) at c.chars)
            ∙ ap (map (handed_as m d.minor)) (q ∙ ap (λ xs. contents m d ++ xs) (sym e));
      }

  read-Conserved :
      (u : UserSpace) (count : ℕ) (d : TranslateDev) {w : Traffic}
      → IsRing m d
      → ((n : ℕ) → u.to_user n ≡ true)
      → Conserved m (translate_read m u count d).2 w
      → Conserved m d (record w { given_out = (translate_read m u count d).1 ++ w.given_out })
  read-Conserved u count d {w} ring all c =
      let a = translate_read-Taken m u count d ring in
      let k = min count d.items in
      let h = handed_as m d.minor in
      let received : (translate_read m u count d).1 ≡ map h (take k (contents m d)) =
        rw (taken_all u 0 k all) at a.received in
      let remaining : contents m (translate_read m u count d).2 ≡ drop k (contents m d) =
        rw (taken_all u 0 k all, ==_refl k) at a.remaining in
      record {
        ring = c.ring;
        same_minor = c.same_minor ∙ a.same_minor;
        chars =
            append_assoc (translate_read m u count d).1 w.given_out (map h (contents m w.device))
            ∙ map-split h k (contents m d) _ received (rw (a.same_minor, remaining) at c.chars);
      }

  -- Over a string with one place for each letter, each letter in it once, and any sequence of calls in
  -- which no process refuses a char, a sound device stays sound; what it gave out, followed by what it holds, is what it held, followed by what it took in, each char
  -- as the device keeps and hands it out, in order.
  pub serve-Conserved :
      (calls : List Call) (d : TranslateDev)
      → IsRing m d
      → NoneRefused calls
      → Conserved m d (serve m calls d)
  unfolding serve NoneRefused
  serve-Conserved [] d ring none = record {
    ring = ring;
    same_minor = refl;
    chars = ap (map (handed_as m d.minor)) (sym (append-nil (contents m d)));
  }
  serve-Conserved (write u count ∷ calls) d ring none =
      let a = translate_write-Appended m u count d t ring in
      write-Conserved u count d ring (serve-Conserved calls _ a.ring none)
  serve-Conserved (read u count ∷ calls) d ring (all, none) =
      let a = translate_read-Taken m u count d ring in
      read-Conserved u count d ring all (serve-Conserved calls _ a.ring none)

-- no char is the terminator of a string
unfoldable pub NoNul : List ℕ → Type 0
NoNul [] = Unit {0}
NoNul (c ∷ cs) = (c ≢ 0) × NoNul cs

-- Two devices, of which the first encodes and the second decodes, both empty.
pub record ArePair (m : Params) (d0 d1 : TranslateDev) : Type 0 where
  pub encoder : IsRing m d0
  pub decoder : IsRing m d1
  pub encodes : d0.minor ≡ 0
  pub decodes : d1.minor ≡ 1
  pub nothing_written : contents m d0 ≡ []
  pub nothing_passed : contents m d1 ≡ []

map_same : (f : ℕ → ℕ) (xs : List ℕ) → ((x : ℕ) → f x ≡ x) → map f xs ≡ xs
map_same f [] e = refl
map_same f (x ∷ xs) e = rw (e x, map_same f xs e) refl

module _ (m : Params) (t : IsTable m.translate_subst) where
  decode_all : (xs : List ℕ) → NoNul xs → map (handed_as m 1) (map (stored_as m 0) xs) ≡ xs
  unfolding NoNul
  decode_all [] n = refl
  decode_all (x ∷ xs) (n, ns) = rw (decode_char-encoding t x n, decode_all xs ns) refl

  from_encoder :
      {d : TranslateDev} {w : Traffic}
      → d.minor ≡ 0
      → contents m d ≡ []
      → Conserved m d w
      → w.given_out ++ contents m w.device ≡ map (stored_as m 0) w.taken_in
  from_encoder {d} {w} e nothing c =
      ap (λ xs. w.given_out ++ xs) (sym (map_same (handed_as m 0) _ (λ x. refl)))
      ∙ (rw (nothing, e) at c.chars)
      ∙ map_same (handed_as m 0) _ (λ x. refl)

  from_decoder :
      {d : TranslateDev} {w : Traffic}
      → d.minor ≡ 1
      → contents m d ≡ []
      → Conserved m d w
      → w.given_out ++ map (handed_as m 1) (contents m w.device) ≡ map (handed_as m 1) w.taken_in
  from_decoder {d} {w} e nothing c =
      (rw (nothing, e) at c.chars)
      ∙ ap (map (handed_as m 1)) (map_same (stored_as m 1) _ (λ x. refl))

  chain :
      (out0 held0 in1 pending out1 held1 in0 : List ℕ)
      → NoNul in0
      → out0 ≡ in1 ++ pending
      → out0 ++ held0 ≡ map (stored_as m 0) in0
      → out1 ++ map (handed_as m 1) held1 ≡ map (handed_as m 1) in1
      → (rest : List ℕ) × (out1 ++ rest ≡ in0)
  chain out0 held0 in1 pending out1 held1 in0 n passed first second =
      let h = handed_as m 1 in
      let encoded : in1 ++ (pending ++ held0) ≡ map (stored_as m 0) in0 =
        sym (append_assoc in1 pending held0) ∙ ap (λ xs. xs ++ held0) (sym passed) ∙ first in
      (
        map h held1 ++ map h (pending ++ held0),
        sym (append_assoc out1 (map h held1) (map h (pending ++ held0)))
            ∙ ap (λ xs. xs ++ map h (pending ++ held0)) second
            ∙ sym (map-append h in1 (pending ++ held0))
            ∙ ap (map h) encoded
            ∙ decode_all in0 n,
      )

  -- Over a string with one place for each letter, each letter in it once: what translate0 has taken in,
  -- without terminators, comes out of translate1 as it went in, by any sequences of calls on the two,
  -- sound and empty at first, in which no process refuses a char: if translate1 took in the beginning
  -- of what translate0 gave out, it has given out a beginning of what translate0 took in.
  pub serve-pipeline :
      (d0 d1 : TranslateDev) (calls0 calls1 : List Call) (pending : List ℕ)
      → ArePair m d0 d1
      → NoneRefused calls0
      → NoneRefused calls1
      → NoNul (serve m calls0 d0).taken_in
      → (serve m calls0 d0).given_out ≡ (serve m calls1 d1).taken_in ++ pending
      → (rest : List ℕ) × ((serve m calls1 d1).given_out ++ rest ≡ (serve m calls0 d0).taken_in)
  serve-pipeline d0 d1 calls0 calls1 pending p none0 none1 no_nul passed =
      chain _ _ _ pending _ _ _ no_nul passed
        (from_encoder p.encodes p.nothing_written (serve-Conserved m t calls0 d0 p.encoder none0))
        (from_decoder p.decodes p.nothing_passed (serve-Conserved m t calls1 d1 p.decoder none1))
