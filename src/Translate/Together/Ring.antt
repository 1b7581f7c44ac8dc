-- ===== src/Translate/Together/Ring.antt =====
-- The passes of the writer and the reader that move a char or a position.
use mathlib.Core.Path.{subst}
use mathlib.Core.List.{append_assoc}
use suse_vm.Prelude.{
  ℕ, suc, List, ◌+◌, ◌-◌, ◌%◌, ◌<◌, ◌≤◌, ◌≡◌, ◌≢◌, refl, sym, ◌∙◌, ap, [], ◌∷◌, ◌++◌, update, ◌==◌,
  if◌then◌else◌, arith,
}
use suse_vm.Translate.Chars.{decode_char}
use suse_vm.Translate.Device.{Params, TranslateDev, UserSpace, handed_char}
use suse_vm.Translate.Queue.{contents, IsRing}
use suse_vm.Translate.Ends.{
  contents-scribble, pushed, IsRing-pushed, contents-pushed, popped, IsRing-popped, contents-front,
  contents-touched,
}
use suse_vm.Translate.Together.{
  Writer, stored, moved_on, counting, away, has_item, decoded, moved, Together,
}
use suse_vm.Translate.Together.Flow.{
  uncounted, intends, overcounted, wants, holding, in_hand, again, Standing, fresh, tried, Decoded,
  one_out, Inv, update-same,
}

-- A char more behind the queued ones.
Standing-pushed :
    {h : ℕ → ℕ} {n : ℕ} {queued ring : List ℕ} (x : ℕ)
    → Standing h n queued ring
    → Standing h n (queued ++ x ∷ []) (ring ++ x ∷ [])
Standing-pushed x (fresh e q) = fresh e (ap (λ l. l ++ x ∷ []) q)
Standing-pushed x (tried c rest e q) =
    tried c (rest ++ x ∷ []) (ap (λ l. l ++ x ∷ []) e) (ap (λ l. l ++ x ∷ []) q)

-- The front char decoded once more.
Standing-decoded :
    {h : ℕ → ℕ} {n : ℕ} {queued : List ℕ} (x : ℕ) (rest : List ℕ)
    → Standing h n queued (x ∷ rest)
    → Standing h (suc n) queued (h x ∷ rest)
Standing-decoded {h} x rest (fresh e q) = tried x rest (sym q) (rw e refl)
Standing-decoded {h} {n} x rest (tried c left e q) =
    let f : x ≡ again h n c = cc in let g : rest ≡ left = cc in tried c left e (rw (f, g) refl)

-- The front char, once decoded, and what is behind it.
Standing-front :
    {h : ℕ → ℕ} {n : ℕ} {queued : List ℕ} (y : ℕ) (rest : List ℕ)
    → Standing h (suc n) queued (y ∷ rest)
    → (c : ℕ) × (queued ≡ c ∷ rest) × (y ≡ again h (suc n) c)
Standing-front y rest (fresh e q) = absurd (ground arith)
Standing-front {h} {n} y rest (tried c left e q) =
    let f : y ≡ again h (suc n) c = cc in let g : rest ≡ left = cc in (c, rw g e, f)

-- The passes that move a char or a position.
module _ {m : Params} {u : UserSpace} {d : TranslateDev} {s : Together} (i : Inv m u d s) where
  held-lt : uncounted s.writer ≡ 0 → intends s.writer ≡ 1 → i.flows.held < m.translate_bufsize
  held-lt e g = let c = i.flows.count in let r = i.room in omega arith

  pub writer-scribbles :
      (w : Writer) (x : ℕ)
      → uncounted s.writer ≡ 0
      → intends s.writer ≡ 1
      → uncounted w ≡ 0
      → intends w ≤ 1
      → ((k : ℕ) → w ≢ counting k)
      → Inv m u d (record s {
        dev = record s.dev { buffer = update s.dev.buffer s.dev.write_pos x };
        writer = w;
      })
  writer-scribbles w x e g z le ne =
      let f = i.flows in
      let c = f.count in
      let room = i.room in
      record {
        flows = record {
          held = f.held;
          count = omega arith;
          ring = record {
            items_le = f.ring.items_le;
            read_lt = f.ring.read_lt;
            write_lt = f.ring.write_lt;
            behind = f.ring.behind;
          };
          out = f.out;
          queued = f.queued;
          came_in = f.came_in;
          spent = f.spent;
          tries = f.tries;
          refusals = f.refusals;
          went_out = f.went_out;
          is_there =
              rw (contents-scribble m (holding s.dev f.held) x f.ring (held-lt e g)) f.is_there;
        };
        room = omega arith;
        enough = i.enough;
        same_minor = i.same_minor;
        not_counting = ne;
        not_discounting = i.not_discounting;
      }

  pub writer-moves :
      s.writer ≡ stored
      → Inv m u d (record s {
        dev = record s.dev { write_pos = (s.dev.write_pos + 1) % m.translate_bufsize };
        writer = moved_on;
        accepted = s.accepted ++ s.dev.buffer s.dev.write_pos ∷ [];
      })
  writer-moves h =
      let f = i.flows in
      let c = f.count in
      let room = i.room in
      let lt = held-lt (ap uncounted h) (ap intends h) in
      let x = s.dev.buffer s.dev.write_pos in
      let there : TranslateDev = record s.dev {
        write_pos = (s.dev.write_pos + 1) % m.translate_bufsize;
        items = f.held + 1;
      } in
      let same : pushed m (holding s.dev f.held) x ≡ there =
        ap (λ b. record there { buffer = b }) (update-same s.dev.buffer s.dev.write_pos) in
      record {
        flows = record {
          held = f.held + 1;
          count = omega (arith, ap uncounted h);
          ring = subst (IsRing m) same (IsRing-pushed m (holding s.dev f.held) x f.ring lt);
          out = f.out;
          queued = f.queued ++ x ∷ [];
          came_in =
              sym (append_assoc (contents m d) s.accepted (x ∷ []))
              ∙ ap (λ l. l ++ x ∷ []) f.came_in
              ∙ append_assoc f.out f.queued (x ∷ []);
          spent = f.spent;
          tries = f.tries;
          refusals = f.refusals;
          went_out = f.went_out;
          is_there =
              subst (Standing (handed_char m u d) (f.tries + in_hand s.reader) (f.queued ++ x ∷ []))
                (sym (contents-pushed m (holding s.dev f.held) x f.ring lt) ∙ ap (contents m) same)
                (Standing-pushed x f.is_there);
        };
        room = omega (arith, ap intends h);
        enough = i.enough;
        same_minor = i.same_minor;
        not_counting = λ k e. cc;
        not_discounting = i.not_discounting;
      }

  held-pos : overcounted s.reader ≡ 0 → wants s.reader ≡ 1 → 0 < i.flows.held
  held-pos e g = let c = i.flows.count in let n = i.enough in omega arith

  handed-same : (c : ℕ) → handed_char m u s.dev c ≡ handed_char m u d c
  unfolding handed_char
  handed-same c = ap (λ k. if k == 1 then decode_char m.translate_subst c else c) i.same_minor

  pub reader-decodes :
      s.reader ≡ has_item
      → Inv m u d (record s {
        dev = record s.dev {
          buffer =
              update s.dev.buffer s.dev.read_pos
                (handed_char m u s.dev (s.dev.buffer s.dev.read_pos));
        };
        reader = decoded;
      })
  reader-decodes h =
      let f = i.flows in
      let c = f.count in
      let n = i.enough in
      let x = s.dev.buffer s.dev.read_pos in
      let y = handed_char m u s.dev x in
      let e = holding s.dev f.held in
      let pos = held-pos (ap overcounted h) (ap wants h) in
      let rest = contents m (popped m e y) in
      let n0 : f.tries + in_hand s.reader ≡ f.tries =
        ap (λ r. f.tries + in_hand r) h ∙ omega arith in
      let n1 : suc f.tries ≡ f.tries + 1 = omega arith in
      record {
        flows = record {
          held = f.held;
          count = omega (arith, ap overcounted h);
          ring = record {
            items_le = f.ring.items_le;
            read_lt = f.ring.read_lt;
            write_lt = f.ring.write_lt;
            behind = f.ring.behind;
          };
          out = f.out;
          queued = f.queued;
          spent = f.spent;
          tries = f.tries;
          refusals = f.refusals;
          came_in = f.came_in;
          went_out = f.went_out;
          is_there =
              let st : Standing (handed_char m u d) f.tries f.queued (x ∷ rest) =
                subst (λ k. Standing (handed_char m u d) k f.queued (x ∷ rest)) n0
                  (subst (Standing (handed_char m u d) (f.tries + in_hand s.reader) f.queued)
                    (contents-front m e y f.ring pos) f.is_there) in
              subst (Standing (handed_char m u d) (f.tries + 1) f.queued)
                (ap (λ z. z ∷ rest) (sym (handed-same x)) ∙ sym (contents-touched m e y f.ring pos))
                (subst (λ k. Standing (handed_char m u d) k f.queued (handed_char m u d x ∷ rest))
                  n1 (Standing-decoded x rest st));
        };
        room = i.room;
        enough = omega (arith, ap wants h);
        same_minor = i.same_minor;
        not_counting = i.not_counting;
        not_discounting = λ k q. cc;
      }

  pub reader-hands_over :
      s.reader ≡ decoded
      → Inv m u d (record s {
        dev = record s.dev { read_pos = (s.dev.read_pos + 1) % m.translate_bufsize };
        reader = moved;
        given = s.given ++ s.dev.buffer s.dev.read_pos ∷ [];
      })
  reader-hands_over h =
      let f = i.flows in
      let counted = f.count in
      let n = i.enough in
      let y = s.dev.buffer s.dev.read_pos in
      let e = holding s.dev f.held in
      let pos = held-pos (ap overcounted h) (ap wants h) in
      let there : TranslateDev = record s.dev {
        read_pos = (s.dev.read_pos + 1) % m.translate_bufsize;
        items = f.held - 1;
      } in
      let same : popped m e y ≡ there =
        ap (λ b. record there { buffer = b }) (update-same s.dev.buffer s.dev.read_pos) in
      let rest = contents m (popped m e y) in
      let n1 : f.tries + in_hand s.reader ≡ suc f.tries =
        ap (λ r. f.tries + in_hand r) h ∙ omega arith in
      let (c, q, g) = Standing-front {h = handed_char m u d} y rest (
        subst (λ k. Standing (handed_char m u d) k f.queued (y ∷ rest)) n1
          (subst (Standing (handed_char m u d) (f.tries + in_hand s.reader) f.queued)
            (contents-front m e y f.ring pos) f.is_there)) in
      record {
        flows = record {
          held = f.held - 1;
          count = omega (arith, ap overcounted h);
          ring = subst (IsRing m) same (IsRing-popped m e y f.ring pos);
          out = f.out ++ c ∷ [];
          queued = rest;
          spent = f.spent + f.tries;
          tries = 0;
          refusals = omega (arith, f.refusals);
          came_in = f.came_in ∙ ap (λ l. f.out ++ l) q ∙ sym (append_assoc f.out (c ∷ []) rest);
          went_out =
              subst
                (λ z.
                  Decoded (handed_char m u d) (f.spent + f.tries) (s.given ++ z ∷ [])
                    (f.out ++ c ∷ []))
                (sym g) (one_out f.tries c f.went_out);
          is_there = fresh refl (ap (contents m) (sym same));
        };
        room = i.room;
        enough = omega (arith, ap wants h);
        same_minor = i.same_minor;
        not_counting = i.not_counting;
        not_discounting = λ k q. cc;
      }

  pub reader-refused :
      s.reader ≡ decoded → Inv m u d (record s { reader = away; refused = s.refused + 1 })
  reader-refused h =
      let f = i.flows in
      let c = f.count in
      let n1 : f.tries + in_hand s.reader ≡ f.tries + 1 + 0 =
        ap (λ r. f.tries + in_hand r) h ∙ omega arith in
      record {
        flows = record {
          held = f.held;
          count = omega (arith, ap overcounted h);
          ring = f.ring;
          out = f.out;
          queued = f.queued;
          spent = f.spent;
          tries = f.tries + 1;
          refusals = omega (arith, f.refusals);
          came_in = f.came_in;
          went_out = f.went_out;
          is_there =
              subst
                (λ k. Standing (handed_char m u d) k f.queued (contents m (holding s.dev f.held)))
                n1 f.is_there;
        };
        room = i.room;
        enough = omega arith;
        same_minor = i.same_minor;
        not_counting = i.not_counting;
        not_discounting = λ k q. cc;
      }
