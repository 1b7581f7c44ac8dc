-- ===== src/Manager/Replace.antt =====
-- The choice of a frame in working/mmanage.c: `find_remove_frame` and the algorithms that the
-- macros FIFO, CLOCK and CLOCK2 select.
use suse_vm.Prelude.{ℕ, zero, suc, ◌+◌, ◌%◌, ltb, Bool, if◌then◌else◌, ◌==◌, ℤ, pos, negsuc, not}
use suse_vm.Vmem.Sizes.{nframes}
use suse_vm.Vmem.Flags.{usedbit1, usedbit2, has, clear_flag}
use suse_vm.Vmem.Run.{Cmd, pure, fail, exit_failure, out_of_fuel, ◌>>=◌, ◌>>◌}
use suse_vm.Vmem.Cells.{get_adm, put_adm, entry_at, put_entry, framepage_at}

-- the macro that the Makefile defines
pub data Algorithm : Type 0 where
  fifo clock clock2 : Algorithm

-- `frames_are_occupied`
unfoldable pub frames_are_occupied : Cmd Bool
frames_are_occupied = do a ← get_adm; pure (not (ltb a.size nframes))

-- `rotate_alloc_idx`
unfoldable pub rotate_alloc_idx : Cmd (Unit {0})
rotate_alloc_idx = do
  a ← get_adm
  put_adm (record a { next_alloc_idx = (a.next_alloc_idx + 1) % nframes })

unfoldable pub find_remove_fifo : Cmd ℤ
unfolding rotate_alloc_idx
find_remove_fifo = do a ← get_adm; rotate_alloc_idx; pure (pos a.next_alloc_idx)

-- The `while` of `find_remove_clock`, on fuel: the frame whose page does not have the used bit.
unfoldable pub clock_loop : ℕ → Cmd ℤ
unfolding rotate_alloc_idx
clock_loop zero = fail out_of_fuel
clock_loop (suc k) = do
  a ← get_adm
  page ← framepage_at (pos a.next_alloc_idx)
  e ← entry_at page
  if has e.flags usedbit1
      then (do
        put_entry page (record e { flags = clear_flag e.flags usedbit1 })
        rotate_alloc_idx
        clock_loop k)
      else pure (pos a.next_alloc_idx)

-- The `while` of `find_remove_clock2`: the second used bit goes first.
unfoldable pub clock2_loop : ℕ → Cmd ℤ
unfolding rotate_alloc_idx
clock2_loop zero = fail out_of_fuel
clock2_loop (suc k) = do
  a ← get_adm
  page ← framepage_at (pos a.next_alloc_idx)
  e ← entry_at page
  if has e.flags usedbit1
      then (do
        put_entry page (record e {
          flags = clear_flag e.flags (if has e.flags usedbit2 then usedbit2 else usedbit1);
        })
        rotate_alloc_idx
        clock2_loop k)
      else pure (pos a.next_alloc_idx)

-- Two used bits at most stand on each of the 16 frames, and each round but the last clears one.
abbrev pub clock_fuel : ℕ
clock_fuel = 33

unfoldable pub find_remove_clock : Cmd ℤ
unfolding rotate_alloc_idx
find_remove_clock = do frame ← clock_loop clock_fuel; rotate_alloc_idx; pure frame

unfoldable pub find_remove_clock2 : Cmd ℤ
unfolding rotate_alloc_idx
find_remove_clock2 = do frame ← clock2_loop clock_fuel; rotate_alloc_idx; pure frame

unfoldable pub use_algorithm : Algorithm → Cmd ℤ
use_algorithm fifo = find_remove_fifo
use_algorithm clock = find_remove_clock
use_algorithm clock2 = find_remove_clock2

abbrev pub is_void : ℤ → Bool
is_void (pos n) = Bool.false
is_void (negsuc n) = n == 0

-- `find_remove_frame`: a frame that was never used, or else the algorithm's.
unfoldable pub find_remove_frame : Algorithm → Cmd ℤ
unfolding frames_are_occupied
find_remove_frame alg = do
  full ← frames_are_occupied
  frame ←
      (if full
        then use_algorithm alg
        else (do a ← get_adm; put_adm (record a { size = a.size + 1 }); pure (pos a.size)))
  if is_void frame then fail exit_failure else pure frame
