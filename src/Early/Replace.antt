-- ===== src/Early/Replace.antt =====
-- The choice of a frame in Aufgabe3/mmanage.c.
use suse_vm.Prelude.{Bool, ℕ, zero, suc, ◌+◌, ◌-◌, ◌==◌, if◌then◌else◌, ℤ, pos}
use suse_vm.Vmem.Sizes.{nframes}
use suse_vm.Vmem.Flags.{usedbit1, usedbit2, has, clear_flag}
use suse_vm.Vmem.Run.{Cmd, pure, fail, out_of_fuel, ◌>>=◌, ◌>>◌}
use suse_vm.Vmem.Cells.{get_adm, put_adm, entry_at, put_entry, framepage_at}
use suse_vm.Manager.Replace
use suse_vm.Manager.Replace.{Algorithm, fifo, clock, clock2, clock_fuel}

-- `vmem_is_full` is `frames_are_occupied` of working/.
abbrev pub vmem_is_full : Cmd Bool
vmem_is_full = Replace.frames_are_occupied

-- `increment_alloc_idx`
unfoldable pub increment_alloc_idx : (alloc_idx : ℕ) → Cmd (Unit {0})
increment_alloc_idx alloc_idx = do
  a ← get_adm
  put_adm
      (record a { next_alloc_idx = if alloc_idx == nframes - 1 then 0 else a.next_alloc_idx + 1 })

-- `increment_alloc_idx(vmem->adm.next_alloc_idx)`
abbrev pub advance : Cmd (Unit {0})
advance = do a ← get_adm; increment_alloc_idx a.next_alloc_idx

unfoldable pub find_remove_fifo : Cmd ℤ
unfolding increment_alloc_idx
find_remove_fifo = do a ← get_adm; increment_alloc_idx a.next_alloc_idx; pure (pos a.next_alloc_idx)

-- the `while` of `find_remove_clock`, on fuel
unfoldable pub clock_loop : ℕ → Cmd ℤ
unfolding increment_alloc_idx
clock_loop zero = fail out_of_fuel
clock_loop (suc k) = do
  a ← get_adm
  page ← framepage_at (pos a.next_alloc_idx)
  e ← entry_at page
  if has e.flags usedbit1
      then (do
        put_entry page (record e { flags = clear_flag e.flags usedbit1 })
        increment_alloc_idx a.next_alloc_idx
        clock_loop k)
      else pure (pos a.next_alloc_idx)

-- the `while` of `find_remove_clock2`
unfoldable pub clock2_loop : ℕ → Cmd ℤ
unfolding increment_alloc_idx
clock2_loop zero = fail out_of_fuel
clock2_loop (suc k) = do
  a ← get_adm
  page ← framepage_at (pos a.next_alloc_idx)
  e ← entry_at page
  if has e.flags usedbit1
      then (do
        put_entry page (record e {
          flags = clear_flag e.flags (if has e.flags usedbit2 then usedbit2 else usedbit1);
        })
        increment_alloc_idx a.next_alloc_idx
        clock2_loop k)
      else pure (pos a.next_alloc_idx)

unfoldable pub find_remove_clock : Cmd ℤ
unfolding increment_alloc_idx
find_remove_clock = do frame ← clock_loop clock_fuel; advance; pure frame

unfoldable pub find_remove_clock2 : Cmd ℤ
unfolding increment_alloc_idx
find_remove_clock2 = do frame ← clock2_loop clock_fuel; advance; pure frame

unfoldable pub use_algorithm : Algorithm → Cmd ℤ
use_algorithm fifo = find_remove_fifo
use_algorithm clock = find_remove_clock
use_algorithm clock2 = find_remove_clock2

-- `find_remove_frame`: the size is raised before it is taken for the frame.
unfoldable pub find_remove_frame : Algorithm → Cmd ℤ
find_remove_frame alg = do
  full ← vmem_is_full
  if full
      then use_algorithm alg
      else (do a ← get_adm; put_adm (record a { size = a.size + 1 }); pure (pos (a.size + 1)))
