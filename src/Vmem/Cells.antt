-- ===== src/Vmem/Cells.antt =====
-- The accesses to the shared memory that working/mmanage.c and working/vmaccess.c make. An index
-- is an int; one outside of the array stops the run, but for `entries[-1]`: those are the two
-- ints before the table, the last members of `vmem->adm`, `pf_count` and `bitmap[0]`.
use suse_vm.Prelude.{◌<◌, ◌≡◌, lt→ltb, ℕ, zero, suc, ltb, if◌then◌else◌, ℤ, pos, negsuc, update}
use suse_vm.Vmem.Sizes.{npages, nframes, physmem_size}
use suse_vm.Vmem.State.{PtEntry, Adm, World}
use suse_vm.Vmem.Run.{ok, Cmd, stop, out_of_bounds}

abbrev pub with_adm : World → Adm → World
with_adm w a = record w { vmem = record w.vmem { adm = a } }

abbrev pub with_entries : World → (ℕ → PtEntry) → World
with_entries w es = record w { vmem = record w.vmem { pt = record w.vmem.pt { entries = es } } }

abbrev pub with_framepage : World → (ℕ → ℤ) → World
with_framepage w fp = record w { vmem = record w.vmem { pt = record w.vmem.pt { framepage = fp } } }

abbrev pub with_cells : World → (ℕ → ℤ) → World
with_cells w c = record w { vmem = record w.vmem { cells = c } }

abbrev pub get_adm : Cmd Adm
get_adm w = ok w.vmem.adm w

abbrev pub put_adm : Adm → Cmd (Unit {0})
put_adm a w = ok tt (with_adm w a)

-- `vmem->pt.entries[page]`
unfoldable pub entry_at : ℤ → Cmd PtEntry
entry_at (pos p) w = if ltb p npages then ok (w.vmem.pt.entries p) w else stop out_of_bounds
entry_at (negsuc zero) w = ok (record { flags = w.vmem.adm.pf_count; frame = w.vmem.adm.bitmap }) w
entry_at (negsuc (suc n)) w = stop out_of_bounds

-- `vmem->pt.entries[page] = e`
unfoldable pub put_entry : ℤ → PtEntry → Cmd (Unit {0})
put_entry (pos p) e w =
    if ltb p npages
    then ok tt (with_entries w (update w.vmem.pt.entries p e))
    else stop out_of_bounds
put_entry (negsuc zero) e w =
    ok tt (with_adm w (record w.vmem.adm { pf_count = e.flags; bitmap = e.frame }))
put_entry (negsuc (suc n)) e w = stop out_of_bounds

-- `vmem->pt.framepage[frame]`
unfoldable pub framepage_at : ℤ → Cmd ℤ
framepage_at (pos f) w = if ltb f nframes then ok (w.vmem.pt.framepage f) w else stop out_of_bounds
framepage_at (negsuc n) w = stop out_of_bounds

-- `vmem->pt.framepage[frame] = page`
unfoldable pub put_framepage : ℤ → ℤ → Cmd (Unit {0})
put_framepage (pos f) page w =
    if ltb f nframes
    then ok tt (with_framepage w (update w.vmem.pt.framepage f page))
    else stop out_of_bounds
put_framepage (negsuc n) page w = stop out_of_bounds

-- `vmem->data[index]`
unfoldable pub cell_at : ℤ → Cmd ℤ
cell_at (pos i) w = if ltb i physmem_size then ok (w.vmem.cells i) w else stop out_of_bounds
cell_at (negsuc n) w = stop out_of_bounds

-- `vmem->data[index] = value`
unfoldable pub put_cell : ℤ → ℤ → Cmd (Unit {0})
put_cell (pos i) value w =
    if ltb i physmem_size
    then ok tt (with_cells w (update w.vmem.cells i value))
    else stop out_of_bounds
put_cell (negsuc n) value w = stop out_of_bounds

-- Inside of the arrays the accesses succeed.
pub entry_at-ok : (p : ℕ) (w : World) → p < npages → entry_at (pos p) w ≡ ok (w.vmem.pt.entries p) w
unfolding entry_at
entry_at-ok p w h = rw (lt→ltb p npages h)

pub put_entry-ok :
    (p : ℕ) (e : PtEntry) (w : World)
    → p < npages
    → put_entry (pos p) e w ≡ ok tt (with_entries w (update w.vmem.pt.entries p e))
unfolding put_entry
put_entry-ok p e w h = rw (lt→ltb p npages h)

pub framepage_at-ok :
    (f : ℕ) (w : World) → f < nframes → framepage_at (pos f) w ≡ ok (w.vmem.pt.framepage f) w
unfolding framepage_at
framepage_at-ok f w h = rw (lt→ltb f nframes h)

pub put_framepage-ok :
    (f : ℕ) (z : ℤ) (w : World)
    → f < nframes
    → put_framepage (pos f) z w ≡ ok tt (with_framepage w (update w.vmem.pt.framepage f z))
unfolding put_framepage
put_framepage-ok f z w h = rw (lt→ltb f nframes h)

pub cell_at-ok : (i : ℕ) (w : World) → i < physmem_size → cell_at (pos i) w ≡ ok (w.vmem.cells i) w
unfolding cell_at
cell_at-ok i w h = rw (lt→ltb i physmem_size h)

pub put_cell-ok :
    (i : ℕ) (v : ℤ) (w : World)
    → i < physmem_size
    → put_cell (pos i) v w ≡ ok tt (with_cells w (update w.vmem.cells i v))
unfolding put_cell
put_cell-ok i v w h = rw (lt→ltb i physmem_size h)
