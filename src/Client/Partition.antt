-- ===== src/Client/Partition.antt =====
-- The partition of `quicksort` of working/vmappl.c, on a flat memory: the cells before
-- the result are below the reference element, the others are not.
use suse_vm.Prelude.{
  ℕ, zero, suc, ◌+◌, ◌<◌, ◌≤◌, ◌≡◌, refl, sym, ◌∙◌, inl, inr, ltb, leb, Bool, true, false, lt_int,
  some, Bool-cases, ◌==◌, arith,
}
use mathlib.Core.Bool.{false≢true}
use suse_vm.Vmem.Sizes.{virtmem_size}
use suse_vm.Flat.{Memory}
use suse_vm.Client.Program.{on_flat}
use suse_vm.Client.Appl.{swap, scan_up, scan_down, partition}
use suse_vm.Client.Fill.{bind_flat}
use suse_vm.Client.Exchange.{swapped, swapped-value, on_flat-swap, Shuffled, unchanged, exchange}
use suse_vm.Client.Scan.{AllBelow, ScannedUp, scan_up-ScannedUp, scan_down-ScannedDown}

-- What a partition of [l, r) around the cell `r` does.
pub record Parted (m : Memory) (l r i j fuel : ℕ) : Type 0 where
  pub place : ℕ
  pub after : Memory
  pub ends : on_flat (partition fuel l r i j) m ≡ some (place, after)
  pub from : l ≤ place
  pub upto : place ≤ r
  pub shuffled : Shuffled l r m after
  pub left : AllBelow true after r l place
  pub right : AllBelow false after r place r

past :
    (m : Memory) (l r i k fuel : ℕ)
    → l ≤ i
    → AllBelow true m r l k
    → (u : ScannedUp m r i fuel) → k ≤ u.stop
past m l r i k fuel li lo u = elim (Bool-cases (ltb u.stop k)) [
  | inl early ↦
      let from = u.from in
      absurd (false≢true (sym u.not_below ∙ lo u.stop (omega arith) (ground arith)))
  | inr late ↦ ground arith
]

module _ (m : Memory) (l r i j : ℕ) (la : l ≤ i) (ij : i < j) (jr : j < r) where
  abbrev next : Memory
  next = swapped m i j

  same_pivot : next r ≡ m r
  same_pivot = swapped-value m i j r ∙ ground arith

  AllBelow-left : lt_int (m j) (m r) ≡ true → AllBelow true m r l i → AllBelow true next r l (suc i)
  AllBelow-left below lo c a b = rw same_pivot (elim (Bool-cases (c == i)) [
    | inl e ↦
        let q : c ≡ i = ground arith in
        let v : next c ≡ m j = swapped-value m i j c ∙ ground arith in rw v below
    | inr e ↦
        let v : next c ≡ m c = swapped-value m i j c ∙ ground arith in rw v (lo c a (ground arith))
  ])

  AllBelow-right :
      lt_int (m i) (m r) ≡ false → AllBelow false m r (suc j) r → AllBelow false next r j r
  AllBelow-right above hi c a b = rw same_pivot (elim (Bool-cases (c == j)) [
    | inl e ↦
        let q : c ≡ j = ground arith in
        let v : next c ≡ m i = swapped-value m i j c ∙ ground arith in rw v above
    | inr e ↦
        let v : next c ≡ m c = swapped-value m i j c ∙ ground arith in rw v (hi c (ground arith) b)
  ])

AllBelow-join :
    {v : Bool} (m : Memory) (r : ℕ) {a b c : ℕ}
    → AllBelow v m r a b
    → AllBelow v m r b c
    → AllBelow v m r a c
AllBelow-join m r {b = b} p q x l h = elim (Bool-cases (ltb x b)) [
  | inl e ↦ p x l (ground arith)
  | inr e ↦ q x (ground arith) h
]

AllBelow-within :
    {v : Bool} (m : Memory) (r : ℕ) {a b a' b' : ℕ}
    → a ≤ a'
    → b' ≤ b
    → AllBelow v m r a b
    → AllBelow v m r a' b'
AllBelow-within m r h k p x l g = p x (omega arith) (omega arith)

pub partition-Parted :
    (fuel l r i j k : ℕ) (m : Memory)
    → r < virtmem_size
    → l ≤ i
    → i ≤ k
    → k ≤ r
    → l ≤ j
    → j < r
    → r < fuel + k
    → AllBelow true m r l k
    → AllBelow false m r (suc j) r
    → Parted m l r i j fuel
unfolding partition on_flat
partition-Parted zero l r i j k m lr li ik kr lj jr f lo hi = absurd (omega arith)
partition-Parted (suc fuel) l r i j k m lr li ik kr lj jr f lo hi =
    let u = scan_up-ScannedUp m r lr (r + 1) i (omega arith) (omega arith) in
    let d = scan_down-ScannedDown m r lr (r + 1) l j lj (omega arith) (omega arith) in
    let kp = past m l r i k (r + 1) li lo u in
    let uf = u.from in
    let uu = u.upto in
    let df = d.from in
    let dd = d.downto in
    let lower : AllBelow true m r l u.stop =
      AllBelow-join m r (AllBelow-within m r (omega arith) ik lo) u.passed in
    let upper : AllBelow false m r (suc d.stop) r = AllBelow-join m r d.passed hi in
    elim (Bool-cases (leb d.stop u.stop)) [
      | inl crossed ↦ record {
        place = u.stop;
        after = m;
        ends =
            bind_flat (scan_up (r + 1) r i) _ m u.ends
              (bind_flat (scan_down (r + 1) l r j) _ m d.ends (rw crossed refl));
        from = omega arith;
        upto = uu;
        shuffled = unchanged;
        left = lower;
        right = λ c a b. elim (Bool-cases (c == u.stop)) [
          | inl e ↦ let q : c ≡ u.stop = ground arith in rw q u.not_below
          | inr e ↦ upper c (ground arith) b
        ];
      }
      | inr apart ↦
          let ud : u.stop < d.stop = ground arith in
          let below : lt_int (m d.stop) (m r) ≡ true = elim d.below [
            | inl e ↦ e
            | inr e ↦ absurd (omega arith)
          ] in
          let lo' = AllBelow-left m l r u.stop d.stop (omega arith) ud (omega arith) below lower in
          let hi' =
            AllBelow-right m l r u.stop d.stop (omega arith) ud (omega arith) u.not_below upper in
          let p =
            partition-Parted fuel l r u.stop d.stop (suc u.stop) (swapped m u.stop d.stop) lr
              (omega arith) (omega arith) (omega arith) (omega arith) (omega arith) (omega arith)
              lo' (AllBelow-within (swapped m u.stop d.stop) r (omega arith) (omega arith) hi') in
          record {
            place = p.place;
            after = p.after;
            ends = bind_flat (scan_up (r + 1) r i) _ m u.ends (
                bind_flat (scan_down (r + 1) l r j) _ m d.ends (
                  rw apart (
                    bind_flat (swap u.stop d.stop) _ m
                      (on_flat-swap m u.stop d.stop (omega arith) (omega arith)) p.ends)));
            from = p.from;
            upto = p.upto;
            shuffled =
                exchange u.stop d.stop (omega arith) (omega arith) (omega arith) (omega arith)
                  p.shuffled;
            left = p.left;
            right = p.right;
          }
    ]
