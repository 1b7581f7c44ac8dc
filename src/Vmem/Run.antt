-- ===== src/Vmem/Run.antt =====
-- Commands on the state, and total correctness of a run.
use mathlib.Core.Path.{subst}
use suse_vm.Prelude.{◌≡◌, refl}
use suse_vm.Vmem.State.{World}

-- How a run ends without a result: `exit(EXIT_FAILURE)`, an access outside of an array, a
-- `sem_wait` that nobody ends, a loop that used up its fuel.
pub data Stop : Type 0 where
  exit_failure out_of_bounds blocked out_of_fuel : Stop

pub data Run (S A : Type 0) : Type 0 where
  ok : A → S → Run S A
  stop : Stop → Run S A

-- a command on states `S`, and one on the state of working/
abbrev pub Command : Type 0 → Type 0 → Type 0
Command S A = S → Run S A

abbrev pub Cmd : Type 0 → Type 0
Cmd A = Command World A

abbrev pub pure : {S A : Type 0} → A → Command S A
pure = ok

abbrev pub fail : {S A : Type 0} → Stop → Command S A
fail e w = stop e

module _ {S A B : Type 0} where
  abbrev pub and_then : Run S A → (A → Command S B) → Run S B
  and_then (ok a w) k = k a w
  and_then (stop e) k = stop e

  infixl 5 ◌>>=◌ ◌>>◌
  abbrev pub ◌>>=◌ : Command S A → (A → Command S B) → Command S B
  m >>= k = λ w. and_then (m w) k

  abbrev pub ◌>>◌ : Command S A → Command S B → Command S B
  m >> n = m >>= λ _. n

-- The command returns, and its result and the state after it satisfy `P`.
pub data Returns {S A : Type 0} (P : A → S → Type 0) : Run S A → Type 0 where
  returns : {a : A} {w : S} → P a w → Returns P (ok a w)

module _ {S A : Type 0} {P : A → S → Type 0} where
  pub bind :
      {B : Type 0} {Q : B → S → Type 0} {r : Run S A} {k : A → Command S B}
      → Returns P r
      → ((a : A) (w : S) → P a w → Returns Q (k a w))
      → Returns Q (and_then r k)
  bind (returns p) next = next _ _ p

  pub mono :
      {Q : A → S → Type 0} {r : Run S A}
      → Returns P r
      → ((a : A) (w : S) → P a w → Q a w)
      → Returns Q r
  mono (returns p) weaken = returns (weaken _ _ p)

  pub at_result : {r : Run S A} {a : A} {w : S} → Returns P r → r ≡ ok a w → P a w
  at_result {a} {w} (returns {a = b} {w = u} p) e =
      let f : b ≡ a = cc in let g : u ≡ w = cc in subst (λ x. P x w) f (subst (P b) g p)

  -- what a run that returns has returned
  pub result : {r : Run S A} → Returns P r → (a : A) × (w : S) × (r ≡ ok a w) × P a w
  result (returns p) = (_, _, refl, p)
