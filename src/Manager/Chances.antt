-- ===== src/Manager/Chances.antt =====
-- The three algorithms of working/mmanage.c as one queue of frames with second chances.
use mathlib.Core.Path.{subst}
use suse_vm.Prelude.{
  ℕ, zero, suc, ◌+◌, ◌%◌, ◌<◌, ◌≡◌, ◌≢◌, refl, sym, ◌∙◌, ap, true, false, lt→ltb, if◌then◌else◌, ℤ,
  pos, pos_part, update, update_self, update_ne, Bool-cases, inl, inr, List, [], ◌∷◌, ◌++◌,
  ring_from, next_pos, distance, mod-next_pos, ring_from-update, ring_from-snoc, ring_from-cons,
  arith, ◌==◌,
}
use suse_vm.Vmem.Sizes.{nframes}
use suse_vm.Vmem.Flags.{Flag, usedbit1, usedbit2, has, clear_flag, flags_end, has-clear_flag}
use suse_vm.Vmem.State.{PtEntry, World}
use suse_vm.Vmem.Run.{Returns, returns, bind, mono}
use suse_vm.Vmem.Cells.{put_entry-ok, entry_at-ok, framepage_at-ok}
use suse_vm.Paging.Coherent.{Holds, Holds-frame}
use suse_vm.Manager.Replace.{
  rotate_alloc_idx, clock_fuel, find_remove_fifo, find_remove_clock, find_remove_clock2, Algorithm,
  fifo, clock, clock2, use_algorithm,
}
use suse_vm.Manager.Sweep.{
  sweep, used_bits, used_bits-lt, rotated, clock_loop-sweep, clock2_loop-sweep, second_first,
}
use suse_vm.Manager.Clock.{
  IsUsedBit, cleared, after_entries, after_round, after_round-IsValid, used_bits-round,
}
use suse_vm.Manager.Valid.{IsValid}

-- A queue of frames, each with its chances: a frame at the front that has none is picked and goes
-- to the back; one that has some goes to the back with one fewer.
pub data Picks : List (ℕ × ℕ) → ℕ → List (ℕ × ℕ) → Type 0 where
  picked : {f : ℕ} {q : List (ℕ × ℕ)} → Picks ((f, 0) ∷ q) f (q ++ (f, 0) ∷ [])
  passed :
      {f n g : ℕ} {q r : List (ℕ × ℕ)} → Picks (q ++ (f, n) ∷ []) g r → Picks ((f, suc n) ∷ q) g r

-- how often the algorithm passes over a page with the flags
abbrev pub chances : Algorithm → ℕ → ℕ
chances fifo fl = 0
chances clock fl = if has fl usedbit1 then 1 else 0
chances clock2 fl = if has fl usedbit1 then (if has fl usedbit2 then 2 else 1) else 0

-- the flags of the page in a frame
abbrev pub flags_in : World → ℕ → ℕ
flags_in w f = (w.vmem.pt.entries (pos_part (w.vmem.pt.framepage f))).flags

-- a frame with the chances of its page
abbrev pub turn : (ℕ → ℕ) → World → ℕ → ℕ × ℕ
turn c w f = (f, c (flags_in w f))

-- the frames from the next index on, with the chances of their pages
abbrev pub frames_with : (ℕ → ℕ) → World → List (ℕ × ℕ)
frames_with c w = ring_from nframes (turn c w) w.vmem.adm.next_alloc_idx nframes

ring_from-agree :
    {A : Type 0} (s : ℕ) (b b' : ℕ → A) (p n : ℕ)
    → p < s
    → ((f : ℕ) → f < s → b f ≡ b' f)
    → ring_from s b p n ≡ ring_from s b' p n
unfolding ring_from
ring_from-agree s b b' p zero l e = refl
ring_from-agree s b b' p (suc n) l e =
    rw (e p l, ring_from-agree s b b' (next_pos s p) n (ground arith) e) refl

-- The front frame goes to the back with other chances.
turned-queue :
    {A : Type 0} (b b' : ℕ → A) (x : A) (n : ℕ)
    → n < nframes
    → ((f : ℕ) → f < nframes → b' f ≡ update b n x f)
    → ring_from nframes b' ((n + 1) % nframes) nframes
      ≡ ring_from nframes b (next_pos nframes n) 15 ++ x ∷ []
turned-queue b b' x n h e =
    let q : ℕ = next_pos nframes n in
    let q_lt : q < nframes = ground arith in
    let far : distance nframes q n ≡ 15 = ground arith in
    rw (mod-next_pos nframes n h) (
      ring_from-agree nframes b' (update b n x) q nframes q_lt e
      ∙ rw
          (
            ring_from-snoc nframes (update b n x) n q 15 q_lt h far,
            update_self b n x,
            ring_from-update nframes b n x q 15 q_lt h (omega arith),
          )
          refl)

-- the state when the index has moved on
abbrev pub moved_on : World → World
moved_on w = rotated w w.vmem.pt.entries ((w.vmem.adm.next_alloc_idx + 1) % nframes)

update-value : {A : Type 0} (b : ℕ → A) (n : ℕ) (x : A) → b n ≡ x → (f : ℕ) → b f ≡ update b n x f
unfolding update
update-value b n x e f = elim (Bool-cases (f == n)) [
  | inl h ↦ let q : f ≡ n = ground arith in rw h (ap b q ∙ e)
  | inr h ↦ rw h refl
]

module _ (c : ℕ → ℕ) (w : World) (n_lt : w.vmem.adm.next_alloc_idx < nframes) where
  abbrev front : ℕ
  front = w.vmem.adm.next_alloc_idx

  abbrev behind_front : List (ℕ × ℕ)
  behind_front = ring_from nframes (turn c w) (next_pos nframes front) 15

  frames_with-front : frames_with c w ≡ turn c w front ∷ behind_front
  frames_with-front = ring_from-cons nframes (turn c w) front nframes (omega arith)

  -- A front frame without chances is picked.
  Picks-front :
      c (flags_in w front) ≡ 0 → Picks (frames_with c w) front (frames_with c (moved_on w))
  Picks-front z =
      let x : ℕ × ℕ = (front, 0) in
      let e : turn c w front ≡ x = ap (λ k. (front, k)) z in
      let g : frames_with c w ≡ x ∷ behind_front =
        frames_with-front ∙ ap (λ y. y ∷ behind_front) e in
      let t : frames_with c (moved_on w) ≡ behind_front ++ x ∷ [] =
        turned-queue (turn c w) (turn c (moved_on w)) x front n_lt
          (λ f l. update-value (turn c w) front x e f) in
      subst (λ q. Picks q front (frames_with c (moved_on w))) (sym g)
        (subst (λ q. Picks (x ∷ behind_front) front q) (sym t) picked)

  -- A front frame with chances goes to the back with one fewer.
  Picks-back :
      (w' : World) {k g : ℕ} {r : List (ℕ × ℕ)}
      → c (flags_in w front) ≡ suc k
      → w'.vmem.adm.next_alloc_idx ≡ (front + 1) % nframes
      → ((f : ℕ) → f < nframes → turn c w' f ≡ update (turn c w) front (front, k) f)
      → Picks (frames_with c w') g r
      → Picks (frames_with c w) g r
  Picks-back w' {k} {g} {r} z idx e p =
      let x : ℕ × ℕ = (front, k) in
      let s : frames_with c w ≡ (front, suc k) ∷ behind_front =
        frames_with-front ∙ ap (λ j. (front, j) ∷ behind_front) z in
      let t : frames_with c w' ≡ behind_front ++ x ∷ [] =
        ap (λ i. ring_from nframes (turn c w') i nframes) idx
        ∙ turned-queue (turn c w) (turn c w') x front n_lt e in
      subst (λ q. Picks q g r) (sym s) (passed (subst (λ q. Picks q g r) t p))

-- The loop of the clock algorithms, for the bit that goes and the chances that it stands for.
module _ (drop : ℕ → Flag) (is_bit : (fl : ℕ) → IsUsedBit (drop fl))
    (is_set : (fl : ℕ) → has fl usedbit1 ≡ true → has fl (drop fl) ≡ true) (c : ℕ → ℕ)
    (no_chance : (fl : ℕ) → has fl usedbit1 ≡ false → c fl ≡ 0)
    (chance_gone : (fl : ℕ)
      → fl < flags_end
      → has fl usedbit1 ≡ true
      → c fl ≡ suc (c (clear_flag fl (drop fl)))) where
  module _ {w : World} (v : IsValid w) {p : ℕ}
      (h : Holds w.vmem.pt.entries w.vmem.pt.framepage p w.vmem.adm.next_alloc_idx)
      (full : w.vmem.adm.size ≡ nframes)
      (hit : has (w.vmem.pt.entries p).flags usedbit1 ≡ true) where
    -- The round changes the flags in the front frame, and no others.
    flags_in-front : flags_in (after_round drop w p) w.vmem.adm.next_alloc_idx ≡ cleared drop w p
    flags_in-front =
        ap (λ z. (after_entries drop w p (pos_part z)).flags) h.page_of
        ∙ ap (λ (e : PtEntry). e.flags) (update_self w.vmem.pt.entries p _)

    flags_in-others :
        (f : ℕ)
        → f < nframes
        → f ≢ w.vmem.adm.next_alloc_idx
        → flags_in (after_round drop w p) f ≡ flags_in w f
    flags_in-others f l ne =
        let (q, hq) = v.coherent.filled f (rw full (lt→ltb f nframes l)) in
        ap (λ z. (after_entries drop w p (pos_part z)).flags) hq.page_of
        ∙ ap (λ (e : PtEntry). e.flags)
            (update_ne w.vmem.pt.entries p _ q (λ qp. ne (Holds-frame hq h qp)))
        ∙ ap (λ z. (w.vmem.pt.entries (pos_part z)).flags) (sym hq.page_of)

    round-turn :
        (f : ℕ)
        → f < nframes
        → turn c (after_round drop w p) f
          ≡ update
              (turn c w)
              w.vmem.adm.next_alloc_idx
              (w.vmem.adm.next_alloc_idx, c (cleared drop w p))
              f
    unfolding update
    round-turn f l = elim (Bool-cases (f == w.vmem.adm.next_alloc_idx)) [
      | inl e ↦
          let q : f ≡ w.vmem.adm.next_alloc_idx = ground arith in
          rw e (
            ap (turn c (after_round drop w p)) q
            ∙ ap (λ x. (w.vmem.adm.next_alloc_idx, c x)) flags_in-front)
      | inr e ↦ rw e (ap (λ x. (f, c x)) (flags_in-others f l (ground arith)))
    ]

  pub sweep-Picks :
      (k : ℕ) (w : World)
      → IsValid w
      → w.vmem.adm.size ≡ nframes
      → used_bits w.vmem.pt.entries w.vmem.pt.framepage < k
      → Returns
          (λ z w'. (f : ℕ) × (z ≡ pos f) × Picks (frames_with c w) f (frames_with c (moved_on w')))
          (sweep drop k w)
  unfolding sweep
  sweep-Picks zero w v full fuel = absurd (omega arith)
  sweep-Picks (suc k) w v full fuel =
      let n : ℕ = w.vmem.adm.next_alloc_idx in
      let (p, h) = v.coherent.filled n (rw full (lt→ltb n nframes v.next_lt)) in
      let same : flags_in w n ≡ (w.vmem.pt.entries p).flags =
        ap (λ z. (w.vmem.pt.entries (pos_part z)).flags) h.page_of in
      rw (framepage_at-ok n w v.next_lt, h.page_of, entry_at-ok p w h.page_lt)
        (elim (Bool-cases (has (w.vmem.pt.entries p).flags usedbit1)) [
          | inl hit ↦
              rw (hit, put_entry-ok p _ w h.page_lt)
                (mono
                  (sweep-Picks k (after_round drop w p)
                    (after_round-IsValid drop is_bit is_set v h full hit) full
                    (omega (arith, used_bits-round drop is_bit is_set v h full hit)))
                  (λ z w' r. (
                    r.0,
                    r.1,
                    Picks-back c w v.next_lt (after_round drop w p)
                        (ap c same ∙ chance_gone _ (v.coherent.small p h.page_lt) hit) refl
                        (round-turn v h full hit) r.2,
                  )))
          | inr miss ↦
              rw miss (returns (n, refl, Picks-front c w v.next_lt (ap c same ∙ no_chance _ miss)))
        ])

-- One chance less when the bit goes.
clock-chance :
    (fl : ℕ)
    → fl < flags_end
    → has fl usedbit1 ≡ true
    → chances clock fl ≡ suc (chances clock (clear_flag fl usedbit1))
clock-chance fl lt h = rw (has-clear_flag fl usedbit1 usedbit1 lt) (ground arith)

clock2-chance :
    (fl : ℕ)
    → fl < flags_end
    → has fl usedbit1 ≡ true
    → chances clock2 fl ≡ suc (chances clock2 (clear_flag fl (second_first fl)))
clock2-chance fl lt h = elim (Bool-cases (has fl usedbit2)) [
  | inl b ↦
      rw (b, has-clear_flag fl usedbit2 usedbit1 lt, has-clear_flag fl usedbit2 usedbit2 lt)
        (ground arith)
  | inr b ↦ rw (b, has-clear_flag fl usedbit1 usedbit1 lt) (ground arith)
]

-- What an algorithm picks from the frames, in the order of the next index.
pub record SecondChance (alg : Algorithm) (w : World) (z : ℤ) (w' : World) : Type 0 where
  pub frame : ℕ
  pub is_frame : z ≡ pos frame
  pub picks : Picks (frames_with (chances alg) w) frame (frames_with (chances alg) w')

-- With all frames filled, from a valid state, each algorithm returns the frame that a queue with
-- chances picks, and leaves the frames in the order and with the chances in which that queue
-- leaves them. The queue holds the frames from the next index on; a page has no chance under FIFO, one
-- under CLOCK if its used bit is set, and one or two under CLOCK2 by its used bits.
pub use_algorithm-SecondChance :
    (alg : Algorithm) (w : World)
    → IsValid w
    → w.vmem.adm.size ≡ nframes
    → Returns (SecondChance alg w) (use_algorithm alg w)
unfolding use_algorithm find_remove_fifo find_remove_clock find_remove_clock2 rotate_alloc_idx
use_algorithm-SecondChance fifo w v full = returns (record {
  frame = w.vmem.adm.next_alloc_idx;
  is_frame = refl;
  picks = Picks-front (chances fifo) w v.next_lt refl;
})
use_algorithm-SecondChance clock w v full = rw (clock_loop-sweep clock_fuel) (
    bind
      (sweep-Picks (λ _. usedbit1) (λ _. inl refl) (λ fl h. h) (chances clock) (λ fl h. rw h refl)
        clock-chance clock_fuel w v full (used_bits-lt w.vmem.pt.entries w.vmem.pt.framepage))
      (λ z w' r. returns (record { frame = r.0; is_frame = r.1; picks = r.2 })))
use_algorithm-SecondChance clock2 w v full = rw (clock2_loop-sweep clock_fuel) (
    bind
      (sweep-Picks second_first (λ fl. ground arith) (λ fl h. ground arith) (chances clock2)
        (λ fl h. rw h refl) clock2-chance clock_fuel w v full
        (used_bits-lt w.vmem.pt.entries w.vmem.pt.framepage))
      (λ z w' r. returns (record { frame = r.0; is_frame = r.1; picks = r.2 })))
