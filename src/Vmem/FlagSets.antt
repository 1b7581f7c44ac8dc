-- ===== src/Vmem/FlagSets.antt =====
-- The flags of a page table entry (working/vmem.h) are the sets of the four `PTF_` bits.
use std.Equiv.{Iso, IsEquiv, iso_to_equiv}
use mathlib.Core.HLevel.{Σ_prop_path}
use native.Mathlib.Bridge.{le_prop}
use suse_vm.Prelude.{
  ℕ, ◌+◌, ◌<◌, ◌≡◌, refl, Bool, true, false, not, ◌&&◌, ◌||◌, ◌==◌, ==_iff, fun_ext, if◌then◌else◌,
  same_bool, same_bool_sound, all_below, all_below_sound, arith,
}
use suse_vm.Vmem.Flags.{
  Flag, present, changed, usedbit1, usedbit2, has, set_flag, clear_flag, same_flag, flags_end,
  has-set_flag, has-clear_flag, set_flag-lt, clear_flag-lt,
}

-- an int with no bit above the four
abbrev pub FlagBits : Type 0
FlagBits = (x : ℕ) × (x < flags_end)

-- which flags are set
abbrev pub tests : FlagBits → Flag → Bool
tests x g = has x.0 g

abbrev value : Bool → ℕ → ℕ
value b n = if b then n else 0

-- the int in which these flags are set
abbrev bits_of : Bool → Bool → Bool → Bool → ℕ
bits_of p c u v = value p 1 + value c 2 + value u 4 + value v 8

bits_of-lt : (p c u v : Bool) → bits_of p c u v < flags_end
bits_of-lt p c u v = ground arith

all_bools : (Bool → Bool) → Bool
all_bools q = q true && q false

all_bools_sound : (q : Bool → Bool) (b : Bool) → all_bools q ≡ true → q b ≡ true
unfolding all_bools
all_bools_sound q true h = ground arith
all_bools_sound q false h = ground arith

abbrev reads_back : Bool → Bool → Bool → Bool → Bool
reads_back p c u v =
    same_bool (has (bits_of p c u v) present) p
    && same_bool (has (bits_of p c u v) changed) c
    && same_bool (has (bits_of p c u v) usedbit1) u
    && same_bool (has (bits_of p c u v) usedbit2) v

abbrev all_four : (Bool → Bool → Bool → Bool → Bool) → Bool
all_four q = all_bools λ p. all_bools λ c. all_bools λ u. all_bools λ v. q p c u v

reads_back_all : all_four reads_back ≡ true
unfolding all_bools has
reads_back_all = refl

reads_back_at : (p c u v : Bool) → reads_back p c u v ≡ true
reads_back_at p c u v =
    all_bools_sound (λ z. reads_back p c u z) v
      (all_bools_sound (λ y. all_bools λ z. reads_back p c y z) u
        (all_bools_sound (λ x. all_bools λ y. all_bools λ z. reads_back p x y z) c
          (all_bools_sound (λ w. all_bools λ x. all_bools λ y. all_bools λ z. reads_back w x y z) p
            reads_back_all)))

-- the int for a set of flags
from_tests : (Flag → Bool) → FlagBits
from_tests b = (bits_of (b present) (b changed) (b usedbit1) (b usedbit2), bits_of-lt _ _ _ _)

tests-from_tests : (b : Flag → Bool) (g : Flag) → tests (from_tests b) g ≡ b g
unfolding from_tests
tests-from_tests b g =
    let h = reads_back_at (b present) (b changed) (b usedbit1) (b usedbit2) in read_flag b g h
  where
    read_flag :
        (b : Flag → Bool) (g : Flag)
        → reads_back (b present) (b changed) (b usedbit1) (b usedbit2) ≡ true
        → has (bits_of (b present) (b changed) (b usedbit1) (b usedbit2)) g ≡ b g
    read_flag b present h = same_bool_sound _ _ (ground arith)
    read_flag b changed h = same_bool_sound _ _ (ground arith)
    read_flag b usedbit1 h = same_bool_sound _ _ (ground arith)
    read_flag b usedbit2 h = same_bool_sound _ _ (ground arith)

abbrev restores : ℕ → Bool
restores x = bits_of (has x present) (has x changed) (has x usedbit1) (has x usedbit2) == x

restores_all : all_below flags_end restores ≡ true
unfolding has
restores_all = refl

from_tests-tests : (x : FlagBits) → from_tests (tests x) ≡ x
unfolding from_tests
from_tests-tests x =
    Σ_prop_path (λ n. le_prop)
      ((==_iff _ x.0).0 (all_below_sound flags_end restores x.0 restores_all x.1))

tests-Iso : Iso FlagBits (Flag → Bool)
tests-Iso = record {
  fun = tests;
  inv = from_tests;
  rinv = λ b. fun_ext (tests-from_tests b);
  linv = from_tests-tests;
}

abbrev pub raise : FlagBits → Flag → FlagBits
raise x g = (set_flag x.0 g, set_flag-lt x.0 g x.1)

abbrev pub lower : FlagBits → Flag → FlagBits
lower x g = (clear_flag x.0 g, clear_flag-lt x.0 g x.1)

-- The ints below 16 are, by their tests `(flags & PTF) == PTF`, the sets of the four flags: every
-- set of flags is the tests of exactly one int; `flags |= PTF` puts the flag into the set, and
-- `flags &= ~PTF` takes it out, and they leave the others.
pub tests-IsEquiv :
    IsEquiv tests
    × ((x : FlagBits) (g : Flag) → tests (raise x g) ≡ (λ h. same_flag g h || tests x h))
    × ((x : FlagBits) (g : Flag) → tests (lower x g) ≡ (λ h. not (same_flag g h) && tests x h))
unfolding tests-Iso
tests-IsEquiv = (
  (iso_to_equiv tests-Iso).1,
  λ x g. fun_ext (λ h. has-set_flag x.0 g h x.1),
  λ x g. fun_ext (λ h. has-clear_flag x.0 g h x.1),
)
