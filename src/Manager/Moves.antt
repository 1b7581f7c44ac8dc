-- ===== src/Manager/Moves.antt =====
-- What the functions of working/mmanage.c that move one page do, as equations: with the indices in
-- range and a sound page file each of them returns, in the state written out.
use Prim.Native.Nat.{max}
use mathlib.Core.Path.{subst}
use suse_vm.Manager.Paging.{enter_page}
use suse_vm.Prelude.{
  le→leb, ℕ, ◌+◌, ◌*◌, ◌<◌, ◌≤◌, ◌≡◌, refl, sym, false, not, lt→ltb, if◌then◌else◌, pos, update,
  update_self, update_twice, blit, Bool-cases, inl, inr, arith,
}
use suse_vm.Vmem.Sizes.{page_size, npages, nframes, physmem_size, virtmem_size, void_idx}
use suse_vm.Vmem.Flags.{changed, has}
use suse_vm.Vmem.State.{Pagefile, World}
use suse_vm.Vmem.Run.{ok}
use suse_vm.Vmem.Cells.{
  with_adm, with_entries, with_framepage, with_cells, entry_at, put_entry, entry_at-ok,
  put_entry-ok, put_framepage-ok,
}
use suse_vm.Vmem.Pagefile.{
  with_pagefile, seek_page, fread, fwrite, readable, run_length, run_length_all,
}
use suse_vm.Paging.Unload.{blank, stored}
use suse_vm.Paging.Load.{load_entry, fetched}
use suse_vm.Manager.Paging.{store_page, fetch_page, update_unload, update_load}

abbrev pub at_position : World → ℕ → World
at_position w i = with_pagefile w (record w.pagefile { position = i })

-- `update_unload` of a page empties its entry.
pub update_unload-page :
    (o : ℕ) (w : World)
    → o < npages
    → update_unload (pos o) w ≡ ok tt (with_entries w (update w.vmem.pt.entries o blank))
unfolding update_unload
update_unload-page o w h =
    rw
      (
        entry_at-ok o w h,
        put_entry-ok o _ w h,
        entry_at-ok o _ h,
        put_entry-ok o _ _ h,
        update_self,
        update_twice,
      )
      refl

-- `update_unload(VOID_IDX)` overwrites the fault counter and the bitmap.
pub update_unload-void :
    (w : World)
    → update_unload void_idx w
      ≡ ok tt (with_adm w (record w.vmem.adm { pf_count = 0; bitmap = void_idx }))
unfolding update_unload entry_at put_entry
update_unload-void w = refl

-- the state after `update_load` of page `r` into frame `f`
abbrev pub entered : World → ℕ → ℕ → World
entered w r f =
    with_entries (with_framepage w (update w.vmem.pt.framepage f (pos r)))
      (load_entry w.vmem.pt.entries r f)

enter_page-page :
    (r f : ℕ) (w : World)
    → r < npages
    → f < nframes
    → enter_page (pos r) (pos f) w ≡ ok tt (entered w r f)
unfolding enter_page
enter_page-page r f w hr hf =
    rw
      (
        put_framepage-ok f (pos r) w hf,
        entry_at-ok r _ hr,
        put_entry-ok r _ _ hr,
        entry_at-ok r _ hr,
        put_entry-ok r _ _ hr,
        update_self,
        update_twice,
      )
      refl

pub update_load-page :
    (r f : ℕ) (w : World)
    → r < npages
    → f < nframes
    → w.vmem.adm.req_pageno ≡ pos r
    → update_load (pos f) w ≡ ok tt (entered w r f)
unfolding update_load
update_load-page r f w hr hf e =
    subst (λ z. enter_page z (pos f) w ≡ ok tt (entered w r f)) (sym e)
      (enter_page-page r f w hr hf)

-- The page file has all pages, and the medium transfers them.
pub record IsSound (f : Pagefile) : Type 0 where
  pub whole : f.length ≡ virtmem_size
  pub sound : (i : ℕ) → i < virtmem_size → f.broken i ≡ false

read_count :
    (f : Pagefile) (r : ℕ)
    → IsSound f
    → r < npages
    → run_length (readable f) (r * page_size) page_size ≡ page_size
read_count f r s hr = run_length_all (readable f) (r * page_size) page_size (λ k a b.
    let l : k < virtmem_size = omega arith in
    rw (s.whole, lt→ltb k virtmem_size l, s.sound k l) refl)

write_count :
    (f : Pagefile) (r : ℕ)
    → IsSound f
    → r < npages
    → run_length (λ i. not (f.broken i)) (r * page_size) page_size ≡ page_size
write_count f r s hr =
    run_length_all (λ i. not (f.broken i)) (r * page_size) page_size
      (λ k a b. let l : k < virtmem_size = omega arith in rw (s.sound k l) refl)

pub seek_page-page :
    (p : ℕ) (w : World) → seek_page (pos p) w ≡ ok tt (at_position w (p * page_size))
unfolding seek_page
seek_page-page p w = refl

pub fread-page :
    (r f : ℕ) (w : World)
    → r < npages
    → f < nframes
    → IsSound w.pagefile
    → fread (pos (f * page_size)) page_size (at_position w (r * page_size))
      ≡ ok page_size (
          at_position
            (with_cells w (fetched w.vmem.cells w.pagefile.ints r f))
            (r * page_size + page_size))
unfolding fread
fread-page r f w hr hf s =
    let l : f * page_size + page_size ≤ physmem_size = omega arith in
    rw (read_count w.pagefile r s hr, le→leb _ _ l) refl

pub fetch_page-loads :
    (r f : ℕ) (w : World)
    → r < npages
    → f < nframes
    → IsSound w.pagefile
    → (w.vmem.pt.entries r).frame ≡ pos f
    → fetch_page (pos r) w
      ≡ ok tt (
          at_position
            (with_cells w (fetched w.vmem.cells w.pagefile.ints r f))
            (r * page_size + page_size))
unfolding fetch_page
fetch_page-loads r f w hr hf s e =
    rw (entry_at-ok r w hr, seek_page-page r w, e, fread-page r f w hr hf s) refl

-- the state after page `o` in frame `f` was written, with the file's position at `i`
abbrev pub written : World → ℕ → ℕ → World
written w o f = with_pagefile w (record w.pagefile {
  ints = blit w.pagefile.ints (o * page_size) w.vmem.cells (f * page_size) page_size;
  position = o * page_size + page_size;
})

pub fwrite-page :
    (o f : ℕ) (w : World)
    → o < npages
    → f < nframes
    → IsSound w.pagefile
    → fwrite (pos (f * page_size)) page_size (at_position w (o * page_size))
      ≡ ok page_size (written w o f)
unfolding fwrite
fwrite-page o f w ho hf s =
    let l : f * page_size + page_size ≤ physmem_size = omega arith in
    let m : max w.pagefile.length (o * page_size + page_size) ≡ w.pagefile.length =
      omega (arith, s.whole) in
    rw (write_count w.pagefile o s ho, le→leb _ _ l, m) refl

-- the state after `store_page` of page `o` in frame `f`
abbrev pub kept : World → ℕ → ℕ → World
kept w o f = with_pagefile w (record w.pagefile {
  ints = stored w.vmem.pt.entries w.vmem.cells w.pagefile.ints o f;
  position =
      if has (w.vmem.pt.entries o).flags changed
      then o * page_size + page_size
      else w.pagefile.position;
})

pub store_page-stores :
    (o f : ℕ) (w : World)
    → o < npages
    → f < nframes
    → IsSound w.pagefile
    → (w.vmem.pt.entries o).frame ≡ pos f
    → store_page (pos o) w ≡ ok tt (kept w o f)
unfolding store_page stored
store_page-stores o f w ho hf s e =
    rw (entry_at-ok o w ho) (elim (Bool-cases (has (w.vmem.pt.entries o).flags changed)) [
      | inl dirty ↦ rw (dirty, seek_page-page o w, e, fwrite-page o f w ho hf s) refl
      | inr same ↦ rw same refl
    ])

-- `store_page(VOID_IDX)` takes the fault counter for flags: at 1 it stores nothing.
pub store_page-void :
    (w : World) → has w.vmem.adm.pf_count changed ≡ false → store_page void_idx w ≡ ok tt w
unfolding store_page entry_at
store_page-void w e = rw e refl
