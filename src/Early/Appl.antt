-- ===== src/Early/Appl.antt =====
-- The demo application of Aufgabe3/vmappl.c. As it stands, its `main` runs a test of the memory in
-- place of the sort.
use suse_vm.Prelude.{
  ℕ, zero, suc, ◌+◌, Bool, true, false, ◌==◌, if◌then◌else◌, ℤ, pos, negsuc, List, ◌⊎◌, inl, inr,
}
use suse_vm.Vmem.Run.{Cmd, pure, fail, out_of_fuel, ◌>>=◌, ◌>>◌}
use suse_vm.Access.{Config}
use suse_vm.Client.Program.{Program, return, no_fuel, vmem_read, vmem_write}
use suse_vm.Client.Appl
use suse_vm.Client.Appl.{length_of_data}
use suse_vm.Early.Access

-- `i == x`
abbrev pub is_int : ℕ → ℤ → Bool
is_int i (pos n) = i == n
is_int i (negsuc n) = false

-- `int test = 1`
abbrev pub test : Bool
test = true

module _ (c : Config) (manager_first : Bool) where
  -- the body of the loop: `i` written to the address `i`, and what is read there
  unfoldable pub write_and_read : (i : ℕ) → Cmd ℤ
  write_and_read i = do
    Access.vmem_write c manager_first i (pos i)
    Access.vmem_read c manager_first i

  -- the loop from `i` on, with `left` addresses to go: the value of `accu` at its end
  unfoldable pub test_from : (left i : ℕ) → Cmd Bool
  unfolding write_and_read
  test_from zero i = pure true
  test_from (suc left) i = do
    x ← write_and_read i
    if is_int i x then test_from left (i + 1) else pure false

  module _ {A : Type 0} where
    -- a program of working/vmappl.c over this memory
    unfoldable pub execute : Program A → Cmd A
    execute (return x) = pure x
    execute no_fuel = fail out_of_fuel
    execute (vmem_read a next) = do x ← Access.vmem_read c manager_first a; execute (next x)
    execute (vmem_write a x next) = do Access.vmem_write c manager_first a x; execute next

  -- `init_data`, `display_data`, `sort`, `quicksort` and `swap` do what those of working/ do.
  abbrev pub init_data : (rand : ℕ → ℕ) → (length : ℕ) → Cmd (Unit {0})
  init_data rand length = execute (Appl.init_data rand length)

  abbrev pub display_data : (length : ℕ) → Cmd (List ℤ)
  display_data length = execute (Appl.display_data length)

  abbrev pub swap : (addr1 addr2 : ℕ) → Cmd (Unit {0})
  swap addr1 addr2 = execute (Appl.swap addr1 addr2)

  abbrev pub quicksort : (fuel l : ℕ) → ℤ → Cmd (Unit {0})
  quicksort fuel l r = execute (Appl.quicksort fuel l r)

  abbrev pub sort : (length : ℕ) → Cmd (Unit {0})
  sort length = execute (Appl.sort length)

  -- the branch of `main` that is not taken: the ints displayed before and after the sort
  unfoldable pub sort_demo : (rand : ℕ → ℕ) → Cmd (List ℤ × List ℤ)
  sort_demo rand = do
    init_data rand length_of_data
    before ← display_data length_of_data
    sort length_of_data
    after ← display_data length_of_data
    pure (before, after)

  -- `main`, with `max` at 150: whether the test succeeds, or else what the sort displays
  unfoldable pub main : (rand : ℕ → ℕ) → Cmd (Bool ⊎ (List ℤ × List ℤ))
  unfolding test_from
  main rand =
      if test
      then (do accu ← test_from 150 0; pure (inl accu))
      else (do shown ← sort_demo rand; pure (inr shown))
