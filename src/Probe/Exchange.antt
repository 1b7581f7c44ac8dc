-- ===== src/Probe/Exchange.antt =====
-- What `sighandler` of probe/mmanage.c does on SIGUSR1 once it has a frame, as equations.
use mathlib.Core.Path.{subst}
use suse_vm.Prelude.{ℕ, ◌+◌, ◌<◌, ◌≡◌, refl, sym, ap, true, false, ℤ, pos, update_self, ◌∷◌}
use suse_vm.Vmem.Sizes.{npages, nframes, void_idx}
use suse_vm.Vmem.Flags.{present, set_flag, plain_end}
use suse_vm.Vmem.State
use suse_vm.Vmem.State.{PtEntry}
use suse_vm.Vmem.Run.{ok}
use suse_vm.Vmem.Cells.{with_adm}
use suse_vm.Paging.Coherent.{Holds}
use suse_vm.Paging.Load.{load_entry}
use suse_vm.Manager.Moves.{IsSound, entered, kept}
use suse_vm.Manager.Exchange.{emptied, brought_in}
use suse_vm.Manager.Paging.{sem_post}
use suse_vm.Probe.State.{Abi, World}
use suse_vm.Probe.Cells.{based_on, framepage_at-ok}
use suse_vm.Probe.Paging.{update_pt, bring_in, fetch_page, exchange_page, logger}
use suse_vm.Probe.Moves.{
  take_away-page, spoiled, take_away-void, bring_in-page, fetch_page-loads, store_if_changed-stores,
  store_if_changed-skips,
}

-- the state after the log entry and `sem_post`
abbrev pub let_go : State.World → ℤ → ℕ → (g_count : ℕ) → State.World
let_go b z f g_count =
    let a = b.vmem.adm in
    record (with_adm b (record a { sema = a.sema + 1 })) {
      logfile =
          record {
            req_pageno = a.req_pageno;
            replaced_page = z;
            alloc_frame = pos f;
            pf_count = a.pf_count;
            g_count = g_count;
          }
          ∷ b.logfile;
    }

module _ (abi : Abi) {r f : ℕ} (f_lt : f < nframes) (r_lt : r < npages) where
  bring_in-requested :
      (w : World)
      → w.base.vmem.adm.req_pageno ≡ pos r
      → bring_in abi (pos f) w.base.vmem.adm.req_pageno w ≡ ok tt (based_on w (entered w.base r f))
  bring_in-requested w e =
      subst (λ z. bring_in abi (pos f) z w ≡ ok tt (based_on w (entered w.base r f))) (sym e)
        (bring_in-page abi r f w r_lt f_lt)

  loaded_frame : (es : ℕ → PtEntry) → (load_entry es r f r).frame ≡ pos f
  loaded_frame es =
      ap (λ x. x.frame)
        (update_self es r (record { flags = set_flag (es r).flags present; frame = pos f }))

  -- after the page was entered
  fetch_page-entered :
      (w : World)
      → w.base.vmem.adm.req_pageno ≡ pos r
      → IsSound w.base.pagefile
      → fetch_page abi w.base.vmem.adm.req_pageno (based_on w (entered w.base r f))
        ≡ ok tt (based_on w (brought_in w.base r f))
  fetch_page-entered w e s =
      subst
        (λ z.
          fetch_page abi z (based_on w (entered w.base r f))
          ≡ ok tt (based_on w (brought_in w.base r f)))
        (sym e)
        (fetch_page-loads abi r f (based_on w (entered w.base r f)) r_lt f_lt
          (record { whole = s.whole; sound = s.sound }) (loaded_frame _))

  -- With `data_full` set, the page in frame `f` makes room.
  pub exchange_page-full :
      (w : World) (o : ℕ)
      → w.base.vmem.adm.req_pageno ≡ pos r
      → w.data_full ≡ true
      → IsSound w.base.pagefile
      → Holds w.base.vmem.pt.entries w.base.vmem.pt.framepage o f
      → (w.base.vmem.pt.entries o).flags < plain_end
      → exchange_page abi (pos f) w
        ≡ ok tt
            (based_on w (let_go (brought_in (emptied (kept w.base o f) o) r f) (pos o) f w.g_count))
  unfolding exchange_page update_pt logger sem_post
  exchange_page-full w o e full s h plain =
      let k = based_on w (kept w.base o f) in
      let m = based_on w (emptied (kept w.base o f) o) in
      rw
        (
          framepage_at-ok f w f_lt,
          h.page_of,
          store_if_changed-stores abi o f w h.page_lt f_lt s h.frame_of full,
        )
        (rw (framepage_at-ok f k f_lt, h.page_of)
          (rw (take_away-page abi o k h.page_lt plain) (
            rw (bring_in-requested m e)
              (rw (fetch_page-entered m e (record { whole = s.whole; sound = s.sound })) refl))))

  -- A frame that holds no page: the ints before the table are overwritten.
  pub exchange_page-fresh :
      (w : World)
      → w.base.vmem.adm.req_pageno ≡ pos r
      → w.data_full ≡ false
      → IsSound w.base.pagefile
      → w.base.vmem.pt.framepage f ≡ void_idx
      → exchange_page abi (pos f) w
        ≡ ok tt (
            based_on
              (spoiled abi w)
              (let_go (brought_in (spoiled abi w).base r f) void_idx f (spoiled abi w).g_count))
  unfolding exchange_page update_pt logger sem_post
  exchange_page-fresh w e empty file z =
      let s = spoiled abi w in
      rw (framepage_at-ok f w f_lt, z, store_if_changed-skips abi void_idx w empty)
        (rw (framepage_at-ok f w f_lt, z, take_away-void abi w)
          (rw (bring_in-requested s e, fetch_page-entered s e file) refl))
