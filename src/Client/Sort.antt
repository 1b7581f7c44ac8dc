-- ===== src/Client/Sort.antt =====
-- `quicksort` and `sort` of working/vmappl.c end and sort.
use suse_vm.Prelude.{
  ℕ, zero, suc, ◌+◌, ◌-◌, ◌<◌, ◌≤◌, ◌≡◌, refl, sym, ◌∙◌, inl, inr, ltb, lt→ltb, le→leb, true, false,
  lt_int, ℤ, pos, sub_ℕ, some, Bool-cases, ◌==◌, arith,
}
use suse_vm.Vmem.Sizes.{virtmem_size}
use suse_vm.Vmem.State.{World}
use suse_vm.Vmem.Run.{Returns, mono}
use suse_vm.Manager.Valid.{IsValid, view}
use suse_vm.Flat.{Memory}
use suse_vm.Access.{Config}
use suse_vm.Access.Ready.{CanAttach}
use suse_vm.Access.Refine.{Reached}
use suse_vm.Client.Program.{on_flat, execute}
use suse_vm.Client.Refine.{execute_refines}
use suse_vm.Client.Appl.{swap, partition, quicksort, sort}
use suse_vm.Client.Fill.{bind_flat}
use suse_vm.Client.Exchange.{
  swapped, swapped-value, on_flat-swap, Shuffled, unchanged, exchange, Shuffled-join,
  Shuffled-widen, Shuffled-outside, Shuffled-all, lt_int_asym, lt_int_across,
}
use suse_vm.Client.Partition.{Parted, partition-Parted}

-- No cell of [l, n) is below one before it.
abbrev pub IsSorted : Memory → (l n : ℕ) → Type 0
IsSorted m l n = (a b : ℕ) → l ≤ a → a < b → b < n → lt_int (m b) (m a) ≡ false

-- What `quicksort` makes of [l, n).
pub record Sorted (m : Memory) (fuel l : ℕ) (r : ℤ) (n : ℕ) : Type 0 where
  pub after : Memory
  pub ends : on_flat (quicksort fuel l r) m ≡ some (tt, after)
  pub shuffled : Shuffled l n m after
  pub sorted : IsSorted after l n

-- Two sorted parts and a cell between them are sorted, if the cell parts their values.
IsSorted-around :
    (m : Memory) (l i n : ℕ) (x : ℤ)
    → IsSorted m l i
    → IsSorted m (suc i) n
    → m i ≡ x
    → ((c : ℕ) → l ≤ c → c < i → lt_int (m c) x ≡ true)
    → ((c : ℕ) → suc i ≤ c → c < n → lt_int (m c) x ≡ false)
    → IsSorted m l n
IsSorted-around m l i n x left right mid lo hi a b la ab bn = elim (Bool-cases (ltb b i)) [
  | inl before ↦ left a b la ab (ground arith)
  | inr not_before ↦ elim (Bool-cases (b == i)) [
    | inl at ↦
        let q : b ≡ i = ground arith in rw (q, mid) (lt_int_asym (m a) x (lo a la (ground arith)))
    | inr after ↦
        let ib : suc i ≤ b = ground arith in
        elim (Bool-cases (ltb a i)) [
          | inl e ↦ lt_int_across (m a) x (m b) (lo a la (ground arith)) (hi b ib bn)
          | inr e ↦ elim (Bool-cases (a == i)) [
            | inl f ↦ let q : a ≡ i = ground arith in rw (q, mid) (hi b ib bn)
            | inr f ↦ right a b (ground arith) ab bn
          ]
        ]
  ]
]

module _ {l r fuel : ℕ} {m : Memory} (p : Parted m l r l (r - 1) fuel) (lr : l < r) where
  -- the memory once the reference element is in its place
  abbrev placed : Memory
  placed = swapped p.after p.place r

  placed-pivot : placed p.place ≡ p.after r
  placed-pivot = let u = p.upto in swapped-value p.after p.place r p.place ∙ ground arith

  placed-below : (c : ℕ) → l ≤ c → c < p.place → lt_int (placed c) (p.after r) ≡ true
  placed-below c a b =
      let u = p.upto in
      let v : placed c ≡ p.after c = swapped-value p.after p.place r c ∙ ground arith in
      rw v (p.left c a b)

  placed-above : (c : ℕ) → suc p.place ≤ c → c < suc r → lt_int (placed c) (p.after r) ≡ false
  placed-above c a b = elim (Bool-cases (c == r)) [
    | inl e ↦
        let q : c ≡ r = ground arith in
        let v : placed c ≡ p.after p.place = swapped-value p.after p.place r c ∙ ground arith in
        rw v (p.right p.place (omega arith) (omega arith))
    | inr e ↦
        let v : placed c ≡ p.after c = swapped-value p.after p.place r c ∙ ground arith in
        rw v (p.right c (omega arith) (ground arith))
  ]

-- The two parts sorted, the whole is.
module _ {k l q : ℕ} {m : Memory} (p : Parted m l q l (q - 1) (q + 1)) (lq : l < q)
    (h : suc q ≤ virtmem_size) (left : Sorted (placed p lq) k l (sub_ℕ p.place 1) p.place)
    (right : Sorted left.after k (p.place + 1) (pos q) (suc q)) where
  untouched-left : (c : ℕ) → c < suc p.place → right.after c ≡ left.after c
  untouched-left c b = Shuffled-outside right.shuffled c (inl (omega arith))

  untouched-right : (c : ℕ) → p.place ≤ c → left.after c ≡ placed p lq c
  untouched-right c a = Shuffled-outside left.shuffled c (inr a)

  right-IsSorted : IsSorted right.after l (suc q)
  right-IsSorted =
      IsSorted-around right.after l p.place (suc q) (p.after q)
        (λ a b la ab bi.
          rw (untouched-left a (omega arith), untouched-left b (omega arith))
            (left.sorted a b la ab bi))
        (λ a b la ab bn. right.sorted a b (omega arith) ab bn)
        (untouched-left p.place (omega arith)
          ∙ untouched-right p.place (omega arith)
          ∙ placed-pivot p lq)
        (λ c a b.
          rw (untouched-left c (omega arith))
            (Shuffled-all (λ x. lt_int x (p.after q)) true left.shuffled (placed-below p lq) c a b))
        (λ c a b.
          Shuffled-all (λ x. lt_int x (p.after q)) false right.shuffled
            (λ d da db. rw (untouched-right d (omega arith)) (placed-above p lq d (omega arith) db))
            c (omega arith) b)

  whole-Sorted : Sorted m (suc k) l (pos q) (suc q)
  unfolding quicksort
  whole-Sorted =
      let from = p.from in
      let upto = p.upto in
      record {
        after = right.after;
        ends = rw (lt→ltb l q lq) (
            bind_flat (partition (q + 1) l q l (q - 1)) _ m p.ends (
              bind_flat (swap p.place q) _ p.after
                (on_flat-swap p.after p.place q (omega arith) (omega arith))
                (bind_flat (quicksort k l (sub_ℕ p.place 1)) _ (placed p lq) left.ends
                  right.ends)));
        shuffled = Shuffled-join (Shuffled-widen (omega arith) (omega arith) p.shuffled) (
            exchange p.place q from (omega arith) (omega arith) (omega arith) (
              Shuffled-join (Shuffled-widen (omega arith) (omega arith) left.shuffled)
                (Shuffled-widen (omega arith) (omega arith) right.shuffled)));
        sorted = right-IsSorted;
      }

pos-sub_ℕ : (q : ℕ) → pos q ≡ sub_ℕ (suc q) 1
pos-sub_ℕ q = let e : suc q - 1 ≡ q = omega arith in rw (le→leb 1 (suc q) (omega arith), e) refl

pub quicksort-Sorted :
    (fuel l : ℕ) (r : ℤ) (n : ℕ) (m : Memory)
    → r ≡ sub_ℕ n 1
    → l ≤ n
    → n ≤ virtmem_size
    → n < fuel + l
    → Sorted m fuel l r n
unfolding quicksort on_flat
quicksort-Sorted zero l r n m e ln h f = absurd (omega arith)
quicksort-Sorted (suc k) l r zero m e ln h f = rw e (record {
  after = m;
  ends = refl;
  shuffled = unchanged;
  sorted = λ a b la ab bn. absurd (omega arith);
})
quicksort-Sorted (suc k) l r (suc q) m e ln h f =
    rw (e ∙ sym (pos-sub_ℕ q)) (elim (Bool-cases (ltb l q)) [
      | inl more ↦
          let lq : l < q = ground arith in
          let p =
            partition-Parted (q + 1) l q l (q - 1) l m (omega arith) (omega arith) (omega arith)
              (omega arith) (omega arith) (omega arith) (omega arith)
              (λ c a b. absurd (omega arith)) (λ c a b. absurd (omega arith)) in
          let from = p.from in
          let upto = p.upto in
          let left =
            quicksort-Sorted k l (sub_ℕ p.place 1) p.place (placed p lq) refl from (omega arith)
              (omega arith) in
          let right =
            quicksort-Sorted k (p.place + 1) (pos q) (suc q) left.after (pos-sub_ℕ q) (omega arith)
              h (omega arith) in
          whole-Sorted p lq h left right
      | inr one ↦
          let ql : q ≤ l = ground arith in
          record {
            after = m;
            ends = rw one refl;
            shuffled = unchanged;
            sorted = λ a b la ab bn. absurd (omega arith);
          }
    ])

-- What holds after `sort`: the first `n` ints of the virtual memory were rearranged by exchanges
-- among them, and none is below one before it.
pub record SortedWorld (n : ℕ) (w w' : World) : Type 0 where
  pub memory : Memory
  pub shuffled : Shuffled 0 n (view w) memory
  pub sorted : IsSorted memory 0 n
  pub reached : Reached w memory w'

-- From a valid state with a client that is attached or can attach, `sort` of at most 1024 ints runs
-- to its end under each page replacement algorithm: the virtual memory then holds the same ints,
-- rearranged by exchanges among the first `n` addresses and sorted there; the invariant and the
-- semaphore's value are kept.
pub sort-Sorted :
    (c : Config) (n : ℕ) (w : World)
    → IsValid w
    → CanAttach c.os w
    → n ≤ virtmem_size
    → Returns (λ _. SortedWorld n w) (execute c (sort n) w)
unfolding sort
sort-Sorted c n w v can h =
    let s = quicksort-Sorted (n + 1) 0 (sub_ℕ n 1) n (view w) refl (omega arith) h (omega arith) in
    mono (execute_refines c (sort n) (view w) s.after tt v can (λ b l. refl) s.ends)
      λ x w' q. record { memory = s.after; shuffled = s.shuffled; sorted = s.sorted; reached = q.1 }
