-- ===== src/Client/Program.antt =====
-- Programs that use the virtual memory only through `vmem_read` and `vmem_write`, and go on by what
-- they read.
use suse_vm.Prelude.{ℕ, ltb, if◌then◌else◌, ℤ, Option, none, some, update}
use suse_vm.Vmem.Sizes.{virtmem_size}
use suse_vm.Vmem.Run.{Cmd, pure, fail, out_of_fuel, ◌>>=◌, ◌>>◌}
use suse_vm.Access
use suse_vm.Access.{Config}
use suse_vm.Flat.{Memory}

-- `no_fuel` is a loop that used up its fuel.
pub data Program (A : Type 0) : Type 0 where
  return : A → Program A
  no_fuel : Program A
  vmem_read : (address : ℕ) → (ℤ → Program A) → Program A
  vmem_write : (address : ℕ) → (value : ℤ) → Program A → Program A

module _ {A B : Type 0} where
  unfoldable pub and_then : Program A → (A → Program B) → Program B
  and_then (return x) k = k x
  and_then no_fuel k = no_fuel
  and_then (vmem_read a next) k = vmem_read a (λ x. and_then (next x) k)
  and_then (vmem_write a x next) k = vmem_write a x (and_then next k)

module _ {A : Type 0} where
  -- the program in the client's process
  unfoldable pub execute : Config → Program A → Cmd A
  execute c (return x) = pure x
  execute c no_fuel = fail out_of_fuel
  execute c (vmem_read a next) = do x ← Access.vmem_read c a; execute c (next x)
  execute c (vmem_write a x next) = do Access.vmem_write c a x; execute c next

  -- the program on a flat memory, where it ends and stays within the memory
  unfoldable pub on_flat : Program A → Memory → Option (A × Memory)
  on_flat (return x) m = some (x, m)
  on_flat no_fuel m = none
  on_flat (vmem_read a next) m =
      let rest = on_flat (next (m a)) m in if ltb a virtmem_size then rest else none
  on_flat (vmem_write a x next) m =
      let rest = on_flat next (update m a x) in if ltb a virtmem_size then rest else none
