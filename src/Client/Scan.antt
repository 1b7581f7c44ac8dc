-- ===== src/Client/Scan.antt =====
-- The two scans of `quicksort` of working/vmappl.c, on a flat memory.
use suse_vm.Prelude.{
  ℕ, zero, suc, ◌+◌, ◌-◌, ◌<◌, ◌≤◌, ◌≡◌, ◌≢◌, refl, sym, ◌∙◌, ◌⊎◌, inl, inr, ltb, lt→ltb, Bool,
  true, false, not, ◌&&◌, lt_int, some, Bool-cases, ◌==◌, arith,
}
use mathlib.Core.Bool.{false≢true}
use suse_vm.Vmem.Sizes.{virtmem_size}
use suse_vm.Flat.{Memory}
use suse_vm.Client.Program.{on_flat}
use suse_vm.Client.Appl.{scan_up, scan_down}
use suse_vm.Client.Exchange.{lt_int_irrefl}

-- the cells of [a, b) are below the cell `r`, or none of them is
abbrev pub AllBelow : Bool → Memory → (r a b : ℕ) → Type 0
AllBelow v m r a b = (c : ℕ) → a ≤ c → c < b → lt_int (m c) (m r) ≡ v

pub record ScannedUp (m : Memory) (r i : ℕ) (fuel : ℕ) : Type 0 where
  pub stop : ℕ
  pub ends : on_flat (scan_up fuel r i) m ≡ some (stop, m)
  pub from : i ≤ stop
  pub upto : stop ≤ r
  pub passed : AllBelow true m r i stop
  pub not_below : lt_int (m stop) (m r) ≡ false

pub record ScannedDown (m : Memory) (l r j : ℕ) (fuel : ℕ) : Type 0 where
  pub stop : ℕ
  pub ends : on_flat (scan_down fuel l r j) m ≡ some (stop, m)
  pub from : stop ≤ j
  pub downto : l ≤ stop
  pub passed : AllBelow false m r (suc stop) (suc j)
  pub below : (lt_int (m stop) (m r) ≡ true) ⊎ (stop ≡ l)

module _ (m : Memory) (r : ℕ) (in_range : r < virtmem_size) where
  differs : (i : ℕ) → lt_int (m i) (m r) ≡ true → i ≢ r
  differs i h e = false≢true (sym (lt_int_irrefl (m r)) ∙ (rw e at h))

  pub scan_up-ScannedUp : (fuel i : ℕ) → i ≤ r → r < fuel + i → ScannedUp m r i fuel
  unfolding scan_up on_flat
  scan_up-ScannedUp zero i h f = absurd (omega arith)
  scan_up-ScannedUp (suc k) i h f = elim (Bool-cases (lt_int (m i) (m r))) [
    | inl below ↦
        let ne = differs i below in
        let l : i < r = ground arith in
        let s = scan_up-ScannedUp k (i + 1) (omega arith) (omega arith) in
        let before = s.passed in
        let from = s.from in
        record {
          stop = s.stop;
          ends =
              rw (lt→ltb i virtmem_size (omega arith), lt→ltb r virtmem_size in_range, below)
                s.ends;
          from = omega arith;
          upto = s.upto;
          passed = λ c a b. elim (Bool-cases (c == i)) [
            | inl e ↦ let q : c ≡ i = ground arith in rw q below
            | inr e ↦ s.passed c (ground arith) b
          ];
          not_below = s.not_below;
        }
    | inr stops ↦ record {
      stop = i;
      ends = rw (lt→ltb i virtmem_size (omega arith), lt→ltb r virtmem_size in_range, stops) refl;
      from = omega arith;
      upto = h;
      passed = λ c a b. absurd (omega arith);
      not_below = stops;
    }
  ]

  pub scan_down-ScannedDown :
      (fuel l j : ℕ) → l ≤ j → j < virtmem_size → j < fuel + l → ScannedDown m l r j fuel
  unfolding scan_down on_flat
  scan_down-ScannedDown zero l j h lj f = absurd (omega arith)
  scan_down-ScannedDown (suc k) l j h lj f =
      elim (Bool-cases (not (lt_int (m j) (m r)) && ltb l j)) [
        | inl goes ↦
            let more : (lt_int (m j) (m r) ≡ false) × (l < j) = ground arith in
            let s = scan_down-ScannedDown k l (j - 1) (omega arith) (omega arith) (omega arith) in
            let from = s.from in
            record {
              stop = s.stop;
              ends = rw (lt→ltb j virtmem_size lj, lt→ltb r virtmem_size in_range, goes) s.ends;
              from = omega arith;
              downto = s.downto;
              passed = λ c a b. elim (Bool-cases (c == j)) [
                | inl e ↦ let q : c ≡ j = ground arith in rw q more.0
                | inr e ↦ s.passed c a (ground arith)
              ];
              below = s.below;
            }
        | inr stops ↦ record {
          stop = j;
          ends = rw (lt→ltb j virtmem_size lj, lt→ltb r virtmem_size in_range, stops) refl;
          from = omega arith;
          downto = h;
          passed = λ c a b. absurd (omega arith);
          below = ground arith;
        }
      ]
