-- ===== src/Manager/Clock.antt =====
-- The frame that the clock loops of working/mmanage.c find, and that their fuel is enough.
use suse_vm.Prelude.{
  ℕ, zero, suc, ◌+◌, ◌%◌, ◌<◌, ◌≤◌, ◌≡◌, refl, sym, ◌∙◌, ap, true, ltb, lt→ltb, ℤ, pos_part, update,
  update_self, update_ne, Bool-cases, inl, inr, arith, ◌⊎◌,
}
use suse_vm.Vmem.State.{PtEntry, World}
use suse_vm.Vmem.Cells.{put_entry-ok, entry_at-ok, framepage_at-ok}
use suse_vm.Manager.Replace.{
  rotate_alloc_idx, clock_fuel, find_remove_fifo, find_remove_clock, find_remove_clock2, Algorithm,
  fifo, clock, clock2, use_algorithm,
}
use suse_vm.Manager.Sweep.{
  sweep, bits, total_drop, used_bits, used_bits-lt, rotated, Chosen, clock_loop-sweep,
  clock2_loop-sweep, second_first,
}
use suse_vm.Vmem.Run.{pure, ◌>>◌, Returns, returns, bind, mono}
use suse_vm.Vmem.Sizes.{nframes}
use suse_vm.Vmem.Flags.{
  Flag, present, changed, usedbit1, usedbit2, has, clear_flag, flags_end, has-clear_flag,
  clear_flag-lt, clear_flag-le,
}
use suse_vm.Paging.Coherent.{Holds, Coherent, Holds-frame}
use suse_vm.Paging.Touch.{reflag, Coherent-reflag}
use suse_vm.Manager.Valid.{IsValid, Reflagged, Reflagged-refl, Reflagged-trans}

abbrev pub IsUsedBit : Flag → Type 0
IsUsedBit g = (g ≡ usedbit1) ⊎ (g ≡ usedbit2)

-- Clearing a used bit leaves the other flags, and one used bit fewer.
bits-clear :
    (fl : ℕ) (g : Flag)
    → fl < flags_end
    → IsUsedBit g
    → has fl g ≡ true
    → suc (bits (clear_flag fl g)) ≡ bits fl
unfolding bits
bits-clear fl usedbit1 lt u h =
    rw (has-clear_flag fl usedbit1 usedbit1 lt, has-clear_flag fl usedbit1 usedbit2 lt)
      (ground arith)
bits-clear fl usedbit2 lt u h =
    rw (has-clear_flag fl usedbit2 usedbit1 lt, has-clear_flag fl usedbit2 usedbit2 lt)
      (ground arith)
bits-clear fl present lt u h = ground arith
bits-clear fl changed lt u h = ground arith

clear-present :
    (fl : ℕ) (g : Flag)
    → fl < flags_end
    → IsUsedBit g
    → has (clear_flag fl g) present ≡ has fl present
clear-present fl usedbit1 lt u = has-clear_flag fl usedbit1 present lt
clear-present fl usedbit2 lt u = has-clear_flag fl usedbit2 present lt
clear-present fl present lt u = ground arith
clear-present fl changed lt u = ground arith

clear-changed :
    (fl : ℕ) (g : Flag)
    → fl < flags_end
    → IsUsedBit g
    → has (clear_flag fl g) changed ≡ has fl changed
clear-changed fl usedbit1 lt u = has-clear_flag fl usedbit1 changed lt
clear-changed fl usedbit2 lt u = has-clear_flag fl usedbit2 changed lt
clear-changed fl present lt u = ground arith
clear-changed fl changed lt u = ground arith

pub Reflagged-reflag :
    (es : ℕ → PtEntry) (p fl : ℕ)
    → has fl present ≡ has (es p).flags present
    → has fl changed ≡ has (es p).flags changed
    → fl ≤ (es p).flags
    → Reflagged es (reflag es p fl)
unfolding update
Reflagged-reflag es p fl hp hc less = record {
  same_frame = λ q. ground arith;
  same_present = λ q. ground arith;
  same_changed = λ q. ground arith;
  lower = λ q. ground arith;
}

pub IsValid-rotated :
    {w : World} (es : ℕ → PtEntry) (n : ℕ)
    → IsValid w
    → n < nframes
    → Coherent (λ f. ltb f w.vmem.adm.size) es w.vmem.pt.framepage w.vmem.cells w.pagefile.ints
    → IsValid (rotated w es n)
IsValid-rotated es n v lt c = record {
  size_le = v.size_le;
  next_lt = lt;
  coherent = c;
  unused = v.unused;
  counted = v.counted;
  file_length = v.file_length;
  file_sound = v.file_sound;
}

Chosen-rotated :
    {w : World} {es : ℕ → PtEntry} {n : ℕ} {z : ℤ} {w' : World}
    → Reflagged w.vmem.pt.entries es
    → Chosen (rotated w es n) z w'
    → Chosen w z w'
Chosen-rotated r c = record {
  frame = c.frame;
  is_frame = c.is_frame;
  frame_lt = c.frame_lt;
  es = c.es;
  next = c.next;
  state = c.state;
  same = Reflagged-trans r c.same;
  valid = c.valid;
}

-- the flags, the table and the state after a round of the loop that clears a bit of page `p`
abbrev pub cleared : (ℕ → Flag) → World → ℕ → ℕ
cleared drop w p = clear_flag (w.vmem.pt.entries p).flags (drop (w.vmem.pt.entries p).flags)

abbrev pub after_entries : (ℕ → Flag) → World → ℕ → ℕ → PtEntry
after_entries drop w p = reflag w.vmem.pt.entries p (cleared drop w p)

abbrev pub after_round : (ℕ → Flag) → World → ℕ → World
after_round drop w p =
    rotated w (after_entries drop w p) ((w.vmem.adm.next_alloc_idx + 1) % nframes)

module _ (drop : ℕ → Flag) (is_bit : (fl : ℕ) → IsUsedBit (drop fl))
    (is_set : (fl : ℕ) → has fl usedbit1 ≡ true → has fl (drop fl) ≡ true) where
  -- A round that clears a bit leaves a valid state with one used bit fewer.
  module _ {w : World} (v : IsValid w) {p : ℕ}
      (h : Holds w.vmem.pt.entries w.vmem.pt.framepage p w.vmem.adm.next_alloc_idx)
      (full : w.vmem.adm.size ≡ nframes)
      (hit : has (w.vmem.pt.entries p).flags usedbit1 ≡ true) where
    small : (w.vmem.pt.entries p).flags < flags_end
    small = v.coherent.small p h.page_lt

    cleared-Reflagged : Reflagged w.vmem.pt.entries (after_entries drop w p)
    cleared-Reflagged =
        Reflagged-reflag w.vmem.pt.entries p (cleared drop w p) (clear-present _ _ small (is_bit _))
          (clear-changed _ _ small (is_bit _)) (clear_flag-le _ _ small)

    pub after_round-IsValid : IsValid (after_round drop w p)
    after_round-IsValid = IsValid-rotated (after_entries drop w p) _ v (omega arith) (
        Coherent-reflag w.vmem.pt.entries p (cleared drop w p) (clear-present _ _ small (is_bit _))
          (clear_flag-lt _ _ small) (λ e. sym (clear-changed _ _ small (is_bit _)) ∙ e) v.coherent)

    pub used_bits-round :
        suc (used_bits (after_entries drop w p) w.vmem.pt.framepage)
        ≡ used_bits w.vmem.pt.entries w.vmem.pt.framepage
    unfolding used_bits
    used_bits-round =
        total_drop (λ f. bits (w.vmem.pt.entries (pos_part (w.vmem.pt.framepage f))).flags)
          (λ f. bits (after_entries drop w p (pos_part (w.vmem.pt.framepage f))).flags) nframes
          w.vmem.adm.next_alloc_idx v.next_lt
          (rw (h.page_of, update_self)
            (bits-clear _ _ small (is_bit _) (is_set (w.vmem.pt.entries p).flags hit)))
          (λ i l ne.
            let (q, hq) = v.coherent.filled i (rw full (lt→ltb i nframes l)) in
            rw (hq.page_of, update_ne _ p _ q (λ e. ne (Holds-frame hq h e))) refl)

  pub sweep-Chosen :
      (k : ℕ) (w : World)
      → IsValid w
      → w.vmem.adm.size ≡ nframes
      → used_bits w.vmem.pt.entries w.vmem.pt.framepage < k
      → Returns (Chosen w) (sweep drop k w)
  unfolding sweep
  sweep-Chosen zero w v full fuel = absurd (omega arith)
  sweep-Chosen (suc k) w v full fuel =
      let n : ℕ = w.vmem.adm.next_alloc_idx in
      let (p, h) = v.coherent.filled n (rw full (lt→ltb n nframes v.next_lt)) in
      rw (framepage_at-ok n w v.next_lt, h.page_of, entry_at-ok p w h.page_lt)
        (elim (Bool-cases (has (w.vmem.pt.entries p).flags usedbit1)) [
          | inl hit ↦
              rw (hit, put_entry-ok p _ w h.page_lt)
                (mono
                  (sweep-Chosen k (after_round drop w p) (after_round-IsValid v h full hit) full
                    (omega (arith, used_bits-round v h full hit)))
                  (λ z w' ch. Chosen-rotated (cleared-Reflagged v h full hit) ch))
          | inr miss ↦ rw miss (
              returns (record {
                frame = n;
                is_frame = refl;
                frame_lt = v.next_lt;
                es = w.vmem.pt.entries;
                next = n;
                state = refl;
                same = Reflagged-refl w.vmem.pt.entries;
                valid = v;
              }))
        ])

-- `rotate_alloc_idx` after the choice keeps what was chosen.
Chosen-rotate :
    {w w' : World} {z : ℤ} → Chosen w z w' → Returns (Chosen w) ((rotate_alloc_idx >> pure z) w')
unfolding rotate_alloc_idx
Chosen-rotate {w} {w'} c = returns (record {
  frame = c.frame;
  is_frame = c.is_frame;
  frame_lt = c.frame_lt;
  es = c.es;
  next = (w'.vmem.adm.next_alloc_idx + 1) % nframes;
  state =
      ap (λ (u : World). rotated u u.vmem.pt.entries ((w'.vmem.adm.next_alloc_idx + 1) % nframes))
        c.state;
  same = c.same;
  valid = IsValid-rotated w'.vmem.pt.entries _ c.valid (omega arith) c.valid.coherent;
})

-- With all frames filled, from a valid state, each algorithm ends within its fuel and returns a
-- frame below 16; only used bits and the next index change, and the invariant holds.
pub use_algorithm-Chosen :
    (alg : Algorithm) (w : World)
    → IsValid w
    → w.vmem.adm.size ≡ nframes
    → Returns (Chosen w) (use_algorithm alg w)
unfolding use_algorithm find_remove_fifo find_remove_clock find_remove_clock2
use_algorithm-Chosen fifo w v full = Chosen-rotate (record {
  frame = w.vmem.adm.next_alloc_idx;
  is_frame = refl;
  frame_lt = v.next_lt;
  es = w.vmem.pt.entries;
  next = w.vmem.adm.next_alloc_idx;
  state = refl;
  same = Reflagged-refl w.vmem.pt.entries;
  valid = v;
})
use_algorithm-Chosen clock w v full = rw (clock_loop-sweep clock_fuel) (
    bind
      (sweep-Chosen (λ _. usedbit1) (λ _. inl refl) (λ fl h. h) clock_fuel w v full
        (used_bits-lt w.vmem.pt.entries w.vmem.pt.framepage))
      (λ z w' c. Chosen-rotate c))
use_algorithm-Chosen clock2 w v full = rw (clock2_loop-sweep clock_fuel) (
    bind
      (sweep-Chosen second_first (λ fl. ground arith) (λ fl h. ground arith) clock_fuel w v full
        (used_bits-lt w.vmem.pt.entries w.vmem.pt.framepage))
      (λ z w' c. Chosen-rotate c))
