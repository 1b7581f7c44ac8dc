-- ===== src/Probe/Moves.antt =====
-- What the functions of probe/mmanage.c that move one page do, as equations.
use mathlib.Core.Path.{subst}
use suse_vm.Prelude.{
  sym, ℤ, ℕ, ◌+◌, ◌*◌, ◌-◌, ◌^◌, ◌<◌, ◌≡◌, refl, true, false, pos, update_self, update_twice,
  Bool-cases, inl, inr,
}
use suse_vm.Vmem.Sizes.{page_size, npages, nframes, void_idx}
use suse_vm.Vmem.Flags.{present, changed, usedbit1, has, clear_flag, plain_end, clear_flag-all}
use suse_vm.Vmem.Run.{ok}
use suse_vm.Vmem.Cells
use suse_vm.Vmem.Cells.{with_adm, with_cells}
use suse_vm.Paging.Unload.{stored}
use suse_vm.Paging.Load.{fetched}
use suse_vm.Manager.Moves.{
  at_position, entered, IsSound, fread-page, fwrite-page, seek_page-page, kept,
}
use suse_vm.Manager.Exchange.{emptied}
use suse_vm.Probe.State.{Abi, ilp32, lp64, World, to_bits}
use suse_vm.Probe.Cells.{based_on, entry_at, put_entry, entry_at-ok, put_entry-ok}
use suse_vm.Probe.Paging.{store_page, fetch_page, take_away, bring_in, store_when, store_if_changed}

-- the three flags cleared
abbrev pub stripped : ℕ → ℕ
stripped x = clear_flag (clear_flag (clear_flag x present) changed) usedbit1

pub take_away-page :
    (abi : Abi) (o : ℕ) (w : World)
    → o < npages
    → (w.base.vmem.pt.entries o).flags < plain_end
    → take_away abi (pos o) w ≡ ok tt (based_on w (emptied w.base o))
unfolding take_away
take_away-page abi o w h plain =
    rw
      (
        entry_at-ok abi o w h,
        put_entry-ok abi o _ w h,
        entry_at-ok abi o _ h,
        put_entry-ok abi o _ _ h,
        update_self,
        update_twice,
        entry_at-ok abi o _ h,
        put_entry-ok abi o _ _ h,
        update_self,
        update_twice,
        entry_at-ok abi o _ h,
        put_entry-ok abi o _ _ h,
        update_self,
        update_twice,
        clear_flag-all _ plain,
      )
      refl

-- The stores to `entries[-1]`: with 4-byte pointers the fault counter loses three bits and `g_count`
-- is -1; with 8-byte pointers `g_count` loses three bits and `bitmap[0]` is -1.
abbrev pub spoiled_pf_count : Abi → ℕ → ℕ
spoiled_pf_count ilp32 n = stripped n
spoiled_pf_count lp64 n = n

abbrev pub spoiled_g_count : Abi → ℕ → ℕ
spoiled_g_count ilp32 g = 2 ^ 32 - 1
spoiled_g_count lp64 g = stripped g

abbrev pub spoiled_bitmap : Abi → ℤ → ℤ
spoiled_bitmap ilp32 z = z
spoiled_bitmap lp64 z = void_idx

abbrev pub spoiled : Abi → World → World
spoiled abi w =
    let a = w.base.vmem.adm in
    record w {
      base = with_adm w.base (record a {
        pf_count = spoiled_pf_count abi a.pf_count;
        bitmap = spoiled_bitmap abi a.bitmap;
      });
      g_count = spoiled_g_count abi w.g_count;
    }

pub take_away-void : (abi : Abi) (w : World) → take_away abi void_idx w ≡ ok tt (spoiled abi w)
unfolding take_away entry_at put_entry to_bits
take_away-void ilp32 w = refl
take_away-void lp64 w = refl

pub bring_in-page :
    (abi : Abi) (r f : ℕ) (w : World)
    → r < npages
    → f < nframes
    → bring_in abi (pos f) (pos r) w ≡ ok tt (based_on w (entered w.base r f))
unfolding bring_in
bring_in-page abi r f w hr hf =
    rw
      (
        Cells.put_framepage-ok f (pos r) w.base hf,
        entry_at-ok abi r _ hr,
        put_entry-ok abi r _ _ hr,
        entry_at-ok abi r _ hr,
        put_entry-ok abi r _ _ hr,
        update_self,
        update_twice,
      )
      refl

pub fetch_page-loads :
    (abi : Abi) (r f : ℕ) (w : World)
    → r < npages
    → f < nframes
    → IsSound w.base.pagefile
    → (w.base.vmem.pt.entries r).frame ≡ pos f
    → fetch_page abi (pos r) w
      ≡ ok tt (
          based_on w (
            at_position
              (with_cells w.base (fetched w.base.vmem.cells w.base.pagefile.ints r f))
              (r * page_size + page_size)))
unfolding fetch_page
fetch_page-loads abi r f w hr hf s e =
    rw (entry_at-ok abi r w hr, seek_page-page r w.base, e, fread-page r f w.base hr hf s) refl

store_when-stores :
    (abi : Abi) (o f : ℕ) (w : World)
    → o < npages
    → f < nframes
    → IsSound w.base.pagefile
    → (w.base.vmem.pt.entries o).frame ≡ pos f
    → store_when abi true (pos o) w ≡ ok tt (based_on w (kept w.base o f))
unfolding store_when store_page stored
store_when-stores abi o f w ho hf s e =
    rw (entry_at-ok abi o w ho) (elim (Bool-cases (has (w.base.vmem.pt.entries o).flags changed)) [
      | inl dirty ↦
          rw
            (
              dirty,
              entry_at-ok abi o w ho,
              seek_page-page o w.base,
              e,
              fwrite-page o f w.base ho hf s,
            )
            refl
      | inr same ↦ rw same refl
    ])

-- With `data_full` set, a page that was changed is stored.
pub store_if_changed-stores :
    (abi : Abi) (o f : ℕ) (w : World)
    → o < npages
    → f < nframes
    → IsSound w.base.pagefile
    → (w.base.vmem.pt.entries o).frame ≡ pos f
    → w.data_full ≡ true
    → store_if_changed abi (pos o) w ≡ ok tt (based_on w (kept w.base o f))
unfolding store_if_changed
store_if_changed-stores abi o f w ho hf s e full =
    subst (λ b. store_when abi b (pos o) w ≡ ok tt (based_on w (kept w.base o f))) (sym full)
      (store_when-stores abi o f w ho hf s e)

-- Before that nothing is stored.
pub store_if_changed-skips :
    (abi : Abi) (z : ℤ) (w : World) → w.data_full ≡ false → store_if_changed abi z w ≡ ok tt w
unfolding store_if_changed store_when
store_if_changed-skips abi z w e = subst (λ b. store_when abi b z w ≡ ok tt w) (sym e) refl
