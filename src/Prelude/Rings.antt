-- ===== src/Prelude/Rings.antt =====
-- Positions in a ring buffer, and the values from one of them on, going round.
use Prim.Native.Nat.{ℕ, zero, suc, ◌+◌, ◌-◌, ◌%◌, ◌≤◌, ◌<◌}
use native.Mathlib.Nat.{mod-eq_of_lt, mod_self}
use native.Mathlib.Omega.{arith}
use mathlib.Core.List.{List, [], ◌∷◌, ◌++◌}
use mathlib.Core.Logic.{inl, inr}
use mathlib.Core.Path.{◌≡◌, refl, ap}
use suse_vm.Prelude.Tests.{leb, if◌then◌else◌, ◌==◌, Bool-cases}
use suse_vm.Prelude.Arrays.{update, update_ne}
use suse_vm.Prelude.Lists.{length}

-- the position after `p` in a buffer of `s` places
abbrev pub next_pos : ℕ → ℕ → ℕ
next_pos s p = if p + 1 == s then 0 else p + 1

-- how far `q` is behind `p`, going round
abbrev pub distance : ℕ → ℕ → ℕ → ℕ
distance s p q = if leb p q then q - p else q + s - p

-- the `n` values from position `p` on, going round
unfoldable pub ring_from : {A : Type 0} → (s : ℕ) → (ℕ → A) → (p n : ℕ) → List A
ring_from s b p zero = []
ring_from s b p (suc n) = b p ∷ ring_from s b (next_pos s p) n

pub mod-next_pos : (s p : ℕ) → p < s → (p + 1) % s ≡ next_pos s p
mod-next_pos s p h = elim (Bool-cases (p + 1 == s)) [
  | inl last ↦ let e : p + 1 ≡ s = ground arith in rw (last, e) (mod_self s)
  | inr inner ↦ let l : p + 1 < s = ground arith in rw inner (mod-eq_of_lt l)
]

module _ {A : Type 0} (s : ℕ) (b : ℕ → A) where
  -- A store outside of the `n` values does not change them.
  pub ring_from-update :
      (q : ℕ) (x : A) (p n : ℕ)
      → p < s
      → q < s
      → n ≤ distance s p q
      → ring_from s (update b q x) p n ≡ ring_from s b p n
  unfolding ring_from
  ring_from-update q x p zero lp lq h = refl
  ring_from-update q x p (suc n) lp lq h =
      rw
        (
          update_ne b q x p (ground arith),
          ring_from-update q x (next_pos s p) n (ground arith) lq (ground arith),
        )
        refl

  pub ring_from-snoc :
      (q p n : ℕ)
      → p < s
      → q < s
      → distance s p q ≡ n
      → ring_from s b p (suc n) ≡ ring_from s b p n ++ (b q ∷ [])
  unfolding ring_from
  ring_from-snoc q p zero lp lq h = let e : p ≡ q = ground arith in rw e refl
  ring_from-snoc q p (suc n) lp lq h =
      ap (λ xs. b p ∷ xs) (ring_from-snoc q (next_pos s p) n (ground arith) lq (ground arith))

  pub ring_from-cons :
      (p n : ℕ) → 0 < n → ring_from s b p n ≡ b p ∷ ring_from s b (next_pos s p) (n - 1)
  unfolding ring_from
  ring_from-cons p zero h = absurd (omega arith)
  ring_from-cons p (suc n) h = let e : suc n - 1 ≡ n = omega arith in rw e refl

  pub length-ring_from : (p n : ℕ) → length (ring_from s b p n) ≡ n
  unfolding length ring_from
  length-ring_from p zero = refl
  length-ring_from p (suc n) = rw (length-ring_from (next_pos s p) n) (omega arith)
