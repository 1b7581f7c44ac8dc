-- ===== src/Translate/Together/Flow.antt =====
-- What the writer and the reader of one device have done to the ring between them.
use suse_vm.Prelude.{zero, suc, ℕ, ◌+◌, ◌≤◌, ◌≡◌, ◌≢◌, List, [], ◌∷◌, ◌++◌, update, fun_ext, arith}
use suse_vm.Translate.Device.{Params, TranslateDev, UserSpace, handed_char}
use suse_vm.Translate.Queue.{contents, IsRing}
use suse_vm.Translate.Together.{
  Writer, has_room, stored, moved_on, counting, Reader, has_item, decoded, moved, discounting,
  Together,
}

-- a char more than `items` says, or one that will be
abbrev pub uncounted : Writer → ℕ
uncounted moved_on = 1
uncounted _ = 0

abbrev pub intends : Writer → ℕ
intends has_room = 1
intends stored = 1
intends moved_on = 1
intends _ = 0

-- a char fewer than `items` says, or one that will be
abbrev pub overcounted : Reader → ℕ
overcounted moved = 1
overcounted _ = 0

abbrev pub wants : Reader → ℕ
wants has_item = 1
wants decoded = 1
wants moved = 1
wants _ = 0

-- the device, holding `n` chars
abbrev pub holding : TranslateDev → ℕ → TranslateDev
holding d n = record d { items = n }

-- how often the reader has decoded the front char in this call
abbrev pub in_hand : Reader → ℕ
in_hand decoded = 1
in_hand _ = 0

-- `n` times `h`
abbrev pub again : (ℕ → ℕ) → ℕ → ℕ → ℕ
again h zero c = c
again h (suc n) c = h (again h n c)

-- The ring holds the queued chars, the first of them decoded `n` times.
pub data Standing (h : ℕ → ℕ) (n : ℕ) (queued ring : List ℕ) : Type 0 where
  fresh : n ≡ 0 → ring ≡ queued → Standing h n queued ring
  tried :
      (c : ℕ) (rest : List ℕ)
      → queued ≡ c ∷ rest
      → ring ≡ again h n c ∷ rest
      → Standing h n queued ring

-- The first list is the second, each char decoded once, and `n` times more in all.
pub data Decoded (h : ℕ → ℕ) : (n : ℕ) (given out : List ℕ) → Type 0 where
  none_out : Decoded h 0 [] []
  one_out :
      {n : ℕ} {given out : List ℕ} (k c : ℕ)
      → Decoded h n given out
      → Decoded h (n + k) (given ++ again h (suc k) c ∷ []) (out ++ c ∷ [])

-- What has come in has gone out in order, translated, or is still there: `out` are the chars that
-- were handed over, `queued` those that were not, as they came in, and `held` is how many the ring holds.
-- `spent` counts the decodings beyond the first of each char that went out, and `tries` those of the one
-- in front before this call; together they are the failed copies.
pub record Flows (m : Params) (u : UserSpace) (d : TranslateDev) (s : Together) : Type 0 where
  pub held : ℕ
  pub count : held + overcounted s.reader ≡ s.dev.items + uncounted s.writer
  pub ring : IsRing m (holding s.dev held)
  pub out : List ℕ
  pub queued : List ℕ
  pub spent : ℕ
  pub tries : ℕ
  pub refusals : spent + tries ≡ s.refused
  pub came_in : contents m d ++ s.accepted ≡ out ++ queued
  pub went_out : Decoded (handed_char m u d) spent s.given out
  pub is_there :
      Standing
        (handed_char m u d)
        (tries + in_hand s.reader)
        queued
        (contents m (holding s.dev held))

-- With the counter changed in one piece, also: the tests of both processes still hold.
pub record Inv (m : Params) (u : UserSpace) (d : TranslateDev) (s : Together) : Type 0 where
  pub flows : Flows m u d s
  pub room : s.dev.items + intends s.writer ≤ m.translate_bufsize
  pub enough : wants s.reader ≤ s.dev.items
  pub same_minor : s.dev.minor ≡ d.minor
  pub not_counting : (n : ℕ) → s.writer ≢ counting n
  pub not_discounting : (n : ℕ) → s.reader ≢ discounting n

pub update-same : (xs : ℕ → ℕ) (i : ℕ) → update xs i (xs i) ≡ xs
unfolding update
update-same xs i = fun_ext λ j. ground arith

-- A pass of one process that moves no char and no position.
module _ {m : Params} {u : UserSpace} {d : TranslateDev} {s : Together} where
  -- a writer that goes on, or counts
  pub writer-on :
      (i : Inv m u d s) (w : Writer) (n : ℕ)
      → n + uncounted w ≡ s.dev.items + uncounted s.writer
      → n + intends w ≤ m.translate_bufsize
      → wants s.reader ≤ n
      → ((k : ℕ) → w ≢ counting k)
      → Inv m u d (record s { dev = record s.dev { items = n }; writer = w })
  writer-on i w n same fits more ne =
      let f = i.flows in
      let c = f.count in
      record {
        flows = record {
          held = f.held;
          count = omega arith;
          ring = f.ring;
          out = f.out;
          queued = f.queued;
          came_in = f.came_in;
          spent = f.spent;
          tries = f.tries;
          refusals = f.refusals;
          went_out = f.went_out;
          is_there = f.is_there;
        };
        room = fits;
        enough = more;
        same_minor = i.same_minor;
        not_counting = ne;
        not_discounting = i.not_discounting;
      }

  -- a reader that goes on, or counts, with nothing in its hand
  pub reader-on :
      (i : Inv m u d s) (r : Reader) (n : ℕ)
      → in_hand r ≡ in_hand s.reader
      → overcounted r + s.dev.items ≡ overcounted s.reader + n
      → n + intends s.writer ≤ m.translate_bufsize
      → wants r ≤ n
      → ((k : ℕ) → r ≢ discounting k)
      → Inv m u d (record s { dev = record s.dev { items = n }; reader = r })
  reader-on i r n e same fits more ne =
      let f = i.flows in
      let c = f.count in
      record {
        flows = record {
          held = f.held;
          count = omega arith;
          ring = f.ring;
          out = f.out;
          queued = f.queued;
          came_in = f.came_in;
          spent = f.spent;
          tries = f.tries;
          refusals = f.refusals;
          went_out = f.went_out;
          is_there = rw e f.is_there;
        };
        room = fits;
        enough = more;
        same_minor = i.same_minor;
        not_counting = i.not_counting;
        not_discounting = ne;
      }
