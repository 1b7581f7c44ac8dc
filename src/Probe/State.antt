-- ===== src/Probe/State.antt =====
-- The state of the manager and the client in probe/, over that of working/.
use suse_vm.Prelude.{ℕ, ◌+◌, ◌-◌, ◌%◌, ◌^◌, Bool, ltb, if◌then◌else◌, ℤ, pos, negsuc}
use suse_vm.Vmem.State
use suse_vm.Vmem.Run
use suse_vm.Vmem.Run.{Run, ok, stop, Command}

-- The size of a pointer. With 4 bytes `vmem->adm` ends with `pf_count`, `g_count` and `bitmap[0]`;
-- with 8 bytes a place of padding follows, since `sem_t` is then aligned to 8 bytes.
pub data Abi : Type 0 where
  ilp32 lp64 : Abi

-- `base` is what working/ has too, `counts` the member `count` of each page table entry as a bit
-- pattern, `g_count` and `padding` ints of `vmem->adm` as bit patterns, `data_full` the global.
pub record World : Type 0 where
  pub base : State.World
  pub counts : ℕ → ℕ
  pub g_count : ℕ
  pub padding : ℕ
  pub data_full : Bool

abbrev pub Cmd : Type 0 → Type 0
Cmd A = Command World A

abbrev pub reattach : {A : Type 0} → World → Run State.World A → Run World A
reattach w (ok a b) = ok a (record w { base = b })
reattach w (stop e) = stop e

-- a command of working/ on what both have
abbrev pub on_base : {A : Type 0} → Run.Cmd A → Cmd A
on_base m w = reattach w (m w.base)

-- an int and its bit pattern
abbrev pub int_min : ℕ
int_min = 2147483648

unfoldable pub to_bits : ℤ → ℕ
to_bits (pos n) = n % 2 ^ 32
to_bits (negsuc n) = 2 ^ 32 - 1 - n % 2 ^ 32

unfoldable pub of_bits : ℕ → ℤ
of_bits x = if ltb x int_min then pos x else negsuc (2 ^ 32 - 1 - x)

-- `a < b` on ints, by their bit patterns
abbrev pub rank : ℕ → ℕ
rank x = (x + int_min) % 2 ^ 32

abbrev pub less_int : ℕ → ℕ → Bool
less_int x y = ltb (rank x) (rank y)
