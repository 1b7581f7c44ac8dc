-- ===== src/Manager/Exchange.antt =====
-- What `exchange_page`, the second half of `page_fault` of working/mmanage.c, does, as equations.
use suse_vm.Prelude.{
  ℕ, ◌+◌, ◌*◌, ◌<◌, ◌≤◌, ◌≡◌, refl, ap, false, ltb, le→not_ltb, ℤ, pos, update, update_self,
  Bool-cases, inl, inr, ◌∷◌,
}
use suse_vm.Vmem.Sizes.{page_size, npages, nframes, void_idx}
use suse_vm.Vmem.Flags.{present, changed, has, set_flag}
use suse_vm.Vmem.State.{PtEntry, World}
use suse_vm.Vmem.Run.{ok, ◌>>=◌, and_then}
use suse_vm.Vmem.Cells.{with_adm, with_entries, with_cells, get_adm, framepage_at-ok}
use suse_vm.Paging.Coherent.{Holds}
use suse_vm.Paging.Unload.{blank}
use suse_vm.Paging.Load.{load_entry, fetched}
use suse_vm.Manager.Replace.{frames_are_occupied}
use suse_vm.Manager.Paging.{fetch_page, update_pt, logger, sem_post, exchange_page}
use suse_vm.Manager.Moves.{
  at_position, update_unload-page, update_unload-void, entered, update_load-page, IsSound,
  fetch_page-loads, kept, store_page-stores, store_page-void,
}

-- A page that is requested and not loaded.
pub record IsRequest (w : World) (r : ℕ) : Type 0 where
  pub page_lt : r < npages
  pub requested : w.vmem.adm.req_pageno ≡ pos r
  pub absent : has (w.vmem.pt.entries r).flags present ≡ false

-- the state after the page `o` is out of the table, after page `r` is in frame `f`, and at the end
abbrev pub emptied : World → ℕ → World
emptied w o = with_entries w (update w.vmem.pt.entries o blank)

abbrev pub brought_in : World → ℕ → ℕ → World
brought_in w r f =
    let u = entered w r f in
    at_position (with_cells u (fetched w.vmem.cells w.pagefile.ints r f))
      (r * page_size + page_size)

abbrev pub let_go : World → ℤ → ℕ → World
let_go w z f =
    let a = w.vmem.adm in
    record (with_adm w (record a { sema = a.sema + 1 })) {
      logfile =
          record {
            req_pageno = a.req_pageno;
            replaced_page = z;
            alloc_frame = pos f;
            pf_count = a.pf_count;
            g_count = 0;
          }
          ∷ w.logfile;
    }

-- the state after the stores to `entries[-1]`
abbrev pub uncounted : World → World
uncounted u = with_adm u (record u.vmem.adm { pf_count = 0; bitmap = void_idx })

module _ {w : World} {r f : ℕ} (req : IsRequest w r) (f_lt : f < nframes) where
  loaded_frame : (es : ℕ → PtEntry) → (load_entry es r f r).frame ≡ pos f
  loaded_frame es =
      ap (λ x. x.frame)
        (update_self es r (record { flags = set_flag (es r).flags present; frame = pos f }))

  -- With all frames filled, the page in frame `f` makes room.
  pub exchange_page-full :
      (o : ℕ)
      → nframes ≤ w.vmem.adm.size
      → IsSound w.pagefile
      → Holds w.vmem.pt.entries w.vmem.pt.framepage o f
      → exchange_page (pos f) (pos r) w
        ≡ ok tt (let_go (brought_in (emptied (kept w o f) o) r f) (pos o) f)
  unfolding exchange_page frames_are_occupied update_pt logger sem_post
  exchange_page-full o full s h =
      rw
        (
          framepage_at-ok f w f_lt,
          h.page_of,
          le→not_ltb w.vmem.adm.size nframes full,
          store_page-stores o f w h.page_lt f_lt s h.frame_of,
        )
        (rw
          (
            framepage_at-ok f (kept w o f) f_lt,
            h.page_of,
            update_unload-page o (kept w o f) h.page_lt,
            update_load-page r f (emptied (kept w o f) o) req.page_lt f_lt req.requested,
            fetch_page-loads r f (entered (emptied (kept w o f) o) r f) req.page_lt f_lt
                (record { whole = s.whole; sound = s.sound }) (loaded_frame _),
          )
          refl)

  -- A frame that holds no page: the fault counter and the bitmap are overwritten.
  pub exchange_page-fresh :
      IsSound w.pagefile
      → w.vmem.pt.framepage f ≡ void_idx
      → has w.vmem.adm.pf_count changed ≡ false
      → exchange_page (pos f) (pos r) w ≡ ok tt (let_go (brought_in (uncounted w) r f) void_idx f)
  unfolding exchange_page frames_are_occupied update_pt logger sem_post
  exchange_page-fresh s e clean =
      rw (framepage_at-ok f w f_lt, e)
        (elim (Bool-cases (ltb w.vmem.adm.size nframes)) [
          | inl room ↦ rw room rest
          | inr last ↦ rw (last, store_page-void w clean) rest
        ])
    where
      rest :
          and_then (update_pt (pos f) w) (λ _. fetch_page (pos r) >>= λ _. get_adm >>= λ a.
          logger (record {
            req_pageno = a.req_pageno;
            replaced_page = void_idx;
            alloc_frame = pos f;
            pf_count = a.pf_count;
            g_count = 0;
          })
          >>= λ _. sem_post)
          ≡ ok tt (let_go (brought_in (uncounted w) r f) void_idx f)
      rest =
          rw
            (
              framepage_at-ok f w f_lt,
              e,
              update_unload-void w,
              update_load-page r f (uncounted w) req.page_lt f_lt req.requested,
              fetch_page-loads r f (entered (uncounted w) r f) req.page_lt f_lt
                  (record { whole = s.whole; sound = s.sound }) (loaded_frame _),
            )
            refl
