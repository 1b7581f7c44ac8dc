-- ===== src/Prelude/Arrays.antt =====
-- C arrays as functions of the index; the accesses that use them check the bounds.
use Prim.Native.Nat.{ℕ, ◌+◌, ◌-◌, ◌*◌, ◌<◌}
use mathlib.Core.Path.{fun_ext, ◌≡◌}
use mathlib.Core.Logic.{◌≢◌}
use mathlib.Core.Bool.{◌&&◌}
use native.Mathlib.Omega.{arith}
use suse_vm.Prelude.Tests.{leb, ltb, ◌==◌, if◌then◌else◌}

module _ {ℓ} {A : Type ℓ} where
  -- `xs[i] = v`
  unfoldable pub update : (ℕ → A) → ℕ → A → ℕ → A
  update xs i v j = if j == i then v else xs j

  -- `memcpy(&dst[base], &src[from], n)`, in elements
  unfoldable pub blit : (ℕ → A) → ℕ → (ℕ → A) → ℕ → ℕ → ℕ → A
  blit dst base src from n j =
      if leb base j && ltb j (base + n) then src (from + (j - base)) else dst j

  pub update_self : (xs : ℕ → A) (i : ℕ) (v : A) → update xs i v i ≡ v
  unfolding update
  update_self xs i v = ground arith

  pub update_twice : (xs : ℕ → A) (i : ℕ) (v u : A) → update (update xs i v) i u ≡ update xs i u
  unfolding update
  update_twice xs i v u = fun_ext λ j. ground arith

  pub update_ne : (xs : ℕ → A) (i : ℕ) (v : A) (j : ℕ) → j ≢ i → update xs i v j ≡ xs j
  unfolding update
  update_ne xs i v j h = ground arith

  pub blit_inside :
      (dst : ℕ → A) (base : ℕ) (src : ℕ → A) (from n k : ℕ)
      → k < n
      → blit dst base src from n (base + k) ≡ src (from + k)
  unfolding blit
  blit_inside dst base src from n k h =
      let e : from + (base + k - base) ≡ from + k = omega arith in ground arith

  -- Blocks of eight that differ do not overlap.
  pub blit_other :
      (dst : ℕ → A) (b : ℕ) (src : ℕ → A) (from c k : ℕ)
      → c ≢ b
      → k < 8
      → blit dst (b * 8) src from 8 (c * 8 + k) ≡ dst (c * 8 + k)
  unfolding blit
  blit_other dst b src from c k ne h = ground arith
