-- ===== src/Early/Fault.antt =====
-- What a page fault does in Aufgabe3/mmanage.c: while the size is below 15.
use suse_vm.Prelude.{
  ℕ, ◌+◌, ◌*◌, ◌%◌, ◌^◌, ◌<◌, ◌≡◌, ◌≢◌, refl, sym, ap, lt→ltb, pos, ◌∷◌, update_self, update_ne,
  blit_inside, blit_other, arith,
}
use mathlib.Core.Path.{subst}
use suse_vm.Vmem.Sizes.{page_size, npages, nframes, void_idx}
use suse_vm.Vmem.Flags.{present, set_flag}
use suse_vm.Vmem.State.{PtEntry, World}
use suse_vm.Vmem.Run.{Returns, returns}
use suse_vm.Vmem.Cells.{with_adm, framepage_at-ok}
use suse_vm.Paging.Load.{load_entry}
use suse_vm.Manager.Replace.{Algorithm, frames_are_occupied}
use suse_vm.Manager.Paging
use suse_vm.Manager.Moves.{IsSound, update_unload-void, update_load-page, entered, fetch_page-loads}
use suse_vm.Manager.Exchange.{uncounted}
use suse_vm.Early.Replace.{find_remove_frame}
use suse_vm.Early.Paging.{exchange_page, page_fault}

-- Page `r` is present in frame `f`, which holds what the file holds; all other entries, frames and cells, and
-- the file, are as they were; the log names the page, and the semaphore was posted.
pub record Filled (w : World) (r f : ℕ) (w' : World) : Type 0 where
  pub entry :
      w'.vmem.pt.entries r
      ≡ record { flags = set_flag (w.vmem.pt.entries r).flags present; frame = pos f }
  pub page : w'.vmem.pt.framepage f ≡ pos r
  pub ints :
      (k : ℕ)
      → k < page_size
      → w'.vmem.cells (f * page_size + k) ≡ w.pagefile.ints (r * page_size + k)
  pub other_entries : (q : ℕ) → q ≢ r → w'.vmem.pt.entries q ≡ w.vmem.pt.entries q
  pub other_pages : (g : ℕ) → g ≢ f → w'.vmem.pt.framepage g ≡ w.vmem.pt.framepage g
  pub other_cells :
      (g k : ℕ)
      → g ≢ f
      → k < page_size
      → w'.vmem.cells (g * page_size + k) ≡ w.vmem.cells (g * page_size + k)
  pub same_file : w'.pagefile.ints ≡ w.pagefile.ints
  pub still_sound : IsSound w'.pagefile
  pub same_client : w'.attached ≡ w.attached
  pub grown : w'.vmem.adm.size ≡ f
  pub uncounted : w'.vmem.adm.pf_count ≡ 0
  pub logged :
      w'.logfile
      ≡ record {
        req_pageno = pos r;
        replaced_page = void_idx;
        alloc_frame = pos f;
        pf_count = 0;
        g_count = 0;
      }
        ∷ w.logfile
  pub posted : w'.vmem.adm.sema ≡ w.vmem.adm.sema + 1

-- the state in which the fault was counted and the size raised
abbrev raised : World → World
raised w =
    let a = w.vmem.adm in
    with_adm w (record a { pf_count = (a.pf_count + 1) % 2 ^ 32; size = a.size + 1 })

-- the frame that a fault takes while the size is below 15
abbrev pub next_frame : World → ℕ
next_frame w = w.vmem.adm.size + 1

loaded_entry :
    (es : ℕ → PtEntry) (r f : ℕ)
    → load_entry es r f r ≡ record { flags = set_flag (es r).flags present; frame = pos f }
loaded_entry es r f =
    update_self es r (record { flags = set_flag (es r).flags present; frame = pos f })

module _ (w : World) (r : ℕ) (r_lt : r < npages) (asked : w.vmem.adm.req_pageno ≡ pos r)
    (file : IsSound w.pagefile) (room : next_frame w < nframes)
    (unused : w.vmem.pt.framepage (next_frame w) ≡ void_idx) where
  exchange_page-Filled :
      Returns
        (λ _. Filled w r (next_frame w))
        (exchange_page (pos (next_frame w)) (pos r) (raised w))
  unfolding exchange_page frames_are_occupied Paging.update_pt Paging.logger Paging.sem_post
  exchange_page-Filled =
      let es = w.vmem.pt.entries in
      let f : ℕ = next_frame w in
      rw (framepage_at-ok f (raised w) room, unused, lt→ltb f nframes room)
        (rw
          (
            framepage_at-ok f (raised w) room,
            unused,
            update_unload-void (raised w),
            update_load-page r f (uncounted (raised w)) r_lt room asked,
            fetch_page-loads r f (entered (uncounted (raised w)) r f) r_lt room
                (record { whole = file.whole; sound = file.sound })
                (ap (λ x. x.frame) (loaded_entry es r f)),
          )
          (returns (record {
            entry = loaded_entry es r f;
            page = update_self w.vmem.pt.framepage f (pos r);
            ints = λ k l.
                blit_inside w.vmem.cells (f * page_size) w.pagefile.ints (r * page_size) page_size k
                  l;
            other_entries = λ q ne. update_ne es r _ q ne;
            other_pages = λ g ne. update_ne w.vmem.pt.framepage f (pos r) g ne;
            other_cells =
                λ g k ne l. blit_other w.vmem.cells f w.pagefile.ints (r * page_size) g k ne l;
            same_file = refl;
            still_sound = record { whole = file.whole; sound = file.sound };
            same_client = refl;
            grown = refl;
            uncounted = refl;
            logged =
                ap
                  (λ z.
                    record {
                      req_pageno = z;
                      replaced_page = void_idx;
                      alloc_frame = pos f;
                      pf_count = 0;
                      g_count = 0;
                    }
                    ∷ w.logfile)
                  asked;
            posted = refl;
          })))

-- On a request for a page of the table, with a size below 15, an unused frame at that size and one
-- more, and a sound file, `page_fault` returns under each algorithm: it leaves frame 0 out and loads
-- the page into the frame of that number, which then holds the ints of the file; all other entries,
-- frames, cells and the file stay, the counter is 0, the log names the page and the frame, and the
-- semaphore is posted once.
pub page_fault-Filled :
    (alg : Algorithm) (w : World) (r : ℕ)
    → r < npages
    → w.vmem.adm.req_pageno ≡ pos r
    → IsSound w.pagefile
    → w.vmem.adm.size + 1 < nframes
    → w.vmem.pt.framepage (w.vmem.adm.size + 1) ≡ void_idx
    → Returns (λ _. Filled w r (w.vmem.adm.size + 1)) (page_fault alg w)
unfolding page_fault Paging.count_fault find_remove_frame frames_are_occupied
page_fault-Filled alg w r r_lt asked file room unused =
    rw (lt→ltb w.vmem.adm.size nframes (omega arith)) (
      subst
        (λ z.
          Returns (λ _. Filled w r (w.vmem.adm.size + 1))
            (exchange_page (pos (w.vmem.adm.size + 1)) z (raised w)))
        (sym asked) (exchange_page-Filled w r r_lt asked file room unused))
