-- ===== src/Probe/Replace.antt =====
-- The choice of a frame in probe/mmanage.c: `find_remove_frame` and the algorithms that the macros
-- LFU, FIFO and CLOCK select.
use suse_vm.Prelude.{ℕ, zero, suc, ◌+◌, ◌-◌, ltb, true, if◌then◌else◌, ◌==◌, ℤ, pos}
use suse_vm.Vmem.Sizes.{nframes}
use suse_vm.Vmem.Flags.{usedbit1, has, clear_flag}
use suse_vm.Vmem.Run.{ok, pure, fail, out_of_fuel, ◌>>=◌, ◌>>◌}
use suse_vm.Manager.Replace.{clock_fuel}
use suse_vm.Probe.State.{Abi, Cmd, less_int}
use suse_vm.Probe.Cells.{get_adm, put_adm, framepage_at, entry_at, put_entry, count_at}

-- the macro that the Makefile defines
pub data Algorithm : Type 0 where
  lfu fifo clock : Algorithm

-- the next index after `idx`
abbrev pub next_idx : ℕ → ℕ
next_idx idx = if idx == nframes - 1 then 0 else idx + 1

-- `if(next_alloc_idx == VMEM_NFRAMES-1) next_alloc_idx = 0; else next_alloc_idx++;`
unfoldable pub advance_idx : Cmd (Unit {0})
advance_idx = do a ← get_adm; put_adm (record a { next_alloc_idx = next_idx a.next_alloc_idx })

unfoldable pub find_remove_fifo : Cmd ℤ
unfolding advance_idx
find_remove_fifo = do a ← get_adm; advance_idx; pure (pos a.next_alloc_idx)

module _ (abi : Abi) where
  -- the member `count` of the page in a frame
  unfoldable pub frame_count : ℕ → Cmd ℕ
  frame_count f = do page ← framepage_at (pos f); count_at abi page

  -- the loop of `find_remove_lfu`, with `left` frames to go
  unfoldable pub lfu_loop : (left i min : ℕ) → Cmd ℕ
  unfolding frame_count
  lfu_loop zero i min = pure min
  lfu_loop (suc left) i min = do
    c ← frame_count i
    m ← frame_count min
    lfu_loop left (suc i) (if less_int c m then i else min)

  unfoldable pub find_remove_lfu : Cmd ℤ
  unfolding lfu_loop
  find_remove_lfu = do min ← lfu_loop nframes 0 0; pure (pos min)

  -- the `while` of `find_remove_clock`, on fuel
  unfoldable pub clock_loop : ℕ → Cmd ℤ
  unfolding advance_idx
  clock_loop zero = fail out_of_fuel
  clock_loop (suc k) = do
    a ← get_adm
    page ← framepage_at (pos a.next_alloc_idx)
    e ← entry_at abi page
    if has e.flags usedbit1
        then (do
          put_entry abi page (record e { flags = clear_flag e.flags usedbit1 })
          advance_idx
          clock_loop k)
        else pure (pos a.next_alloc_idx)

  unfoldable pub find_remove_clock : Cmd ℤ
  unfolding advance_idx
  find_remove_clock = do frame ← clock_loop clock_fuel; advance_idx; pure frame

  unfoldable pub use_algorithm : Algorithm → Cmd ℤ
  use_algorithm lfu = find_remove_lfu
  use_algorithm fifo = find_remove_fifo
  use_algorithm clock = find_remove_clock

  -- `data_full = 1`
  unfoldable pub set_data_full : Cmd (Unit {0})
  set_data_full w = ok tt (record w { data_full = true })

  -- `find_remove_frame`
  unfoldable pub find_remove_frame : Algorithm → Cmd ℤ
  unfolding set_data_full
  find_remove_frame alg = do
    a ← get_adm
    if ltb a.size nframes
        then (do put_adm (record a { size = a.size + 1 }); pure (pos a.size))
        else set_data_full >> use_algorithm alg
