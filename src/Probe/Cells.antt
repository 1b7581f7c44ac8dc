-- ===== src/Probe/Cells.antt =====
-- The accesses to the page table that probe/mmanage.c and probe/vmaccess.c make. `entries[-1]` is
-- the three ints before the table, the last of `vmem->adm`.
use suse_vm.Prelude.{
  ℕ, zero, suc, ◌+◌, ◌%◌, ◌^◌, ◌<◌, ◌≡◌, refl, ltb, lt→ltb, if◌then◌else◌, ℤ, pos, negsuc, update,
}
use suse_vm.Vmem.Sizes.{npages, nframes}
use suse_vm.Vmem.State
use suse_vm.Vmem.State.{PtEntry, Adm}
use suse_vm.Vmem.Run.{ok, stop, out_of_bounds}
use suse_vm.Vmem.Cells
use suse_vm.Vmem.Cells.{with_adm, with_entries}
use suse_vm.Probe.State.{Abi, ilp32, lp64, World, Cmd, on_base, to_bits, of_bits}

abbrev pub based_on : World → State.World → World
based_on w b = record w { base = b }

abbrev pub get_adm : Cmd Adm
get_adm = on_base Cells.get_adm

abbrev pub put_adm : Adm → Cmd (Unit {0})
put_adm a = on_base (Cells.put_adm a)

-- `vmem->pt.framepage[frame]`, read and written
abbrev pub framepage_at : ℤ → Cmd ℤ
framepage_at frame = on_base (Cells.framepage_at frame)

abbrev pub put_framepage : ℤ → ℤ → Cmd (Unit {0})
put_framepage frame page = on_base (Cells.put_framepage frame page)

-- `flags` and `frame` of the ints before the table
abbrev pub before_table : Abi → World → PtEntry
before_table ilp32 w = record { flags = w.base.vmem.adm.pf_count; frame = of_bits w.g_count }
before_table lp64 w = record { flags = w.g_count; frame = w.base.vmem.adm.bitmap }

abbrev pub put_before_table : Abi → PtEntry → World → World
put_before_table ilp32 e w = record w {
  base = with_adm w.base (record w.base.vmem.adm { pf_count = e.flags });
  g_count = to_bits e.frame;
}
put_before_table lp64 e w = record w {
  base = with_adm w.base (record w.base.vmem.adm { bitmap = e.frame });
  g_count = e.flags;
}

module _ (abi : Abi) where
  -- the members `flags` and `frame` of `vmem->pt.entries[page]`
  unfoldable pub entry_at : ℤ → Cmd PtEntry
  entry_at (pos p) w = on_base (Cells.entry_at (pos p)) w
  entry_at (negsuc zero) w = ok (before_table abi w) w
  entry_at (negsuc (suc n)) w = stop out_of_bounds

  unfoldable pub put_entry : ℤ → PtEntry → Cmd (Unit {0})
  put_entry (pos p) e w = on_base (Cells.put_entry (pos p) e) w
  put_entry (negsuc zero) e w = ok tt (put_before_table abi e w)
  put_entry (negsuc (suc n)) e w = stop out_of_bounds

  abbrev pub count_before : World → ℕ
  count_before w = elim abi [ ilp32 ↦ to_bits w.base.vmem.adm.bitmap | lp64 ↦ w.padding ]

  -- `vmem->pt.entries[page].count`
  unfoldable pub count_at : ℤ → Cmd ℕ
  count_at (pos p) w = if ltb p npages then ok (w.counts p) w else stop out_of_bounds
  count_at (negsuc zero) w = ok (count_before w) w
  count_at (negsuc (suc n)) w = stop out_of_bounds

-- `vmem->pt.entries[page].count++`, for the page of an address
unfoldable pub raise_count : ℕ → Cmd (Unit {0})
raise_count p w =
    if ltb p npages
    then ok tt (record w { counts = update w.counts p ((w.counts p + 1) % 2 ^ 32) })
    else stop out_of_bounds

-- Inside of the table the accesses succeed.
pub entry_at-ok :
    (abi : Abi) (p : ℕ) (w : World)
    → p < npages
    → entry_at abi (pos p) w ≡ ok (w.base.vmem.pt.entries p) w
unfolding entry_at
entry_at-ok abi p w h = rw (Cells.entry_at-ok p w.base h) refl

pub put_entry-ok :
    (abi : Abi) (p : ℕ) (e : PtEntry) (w : World)
    → p < npages
    → put_entry abi (pos p) e w
      ≡ ok tt (based_on w (with_entries w.base (update w.base.vmem.pt.entries p e)))
unfolding put_entry
put_entry-ok abi p e w h = rw (Cells.put_entry-ok p e w.base h) refl

pub count_at-ok :
    (abi : Abi) (p : ℕ) (w : World) → p < npages → count_at abi (pos p) w ≡ ok (w.counts p) w
unfolding count_at
count_at-ok abi p w h = rw (lt→ltb p npages h) refl

pub framepage_at-ok :
    (f : ℕ) (w : World) → f < nframes → framepage_at (pos f) w ≡ ok (w.base.vmem.pt.framepage f) w
framepage_at-ok f w h = rw (Cells.framepage_at-ok f w.base h) refl
