-- ===== src/Manager/Unused.antt =====
-- A page fault of working/mmanage.c while there are frames that were never used.
use mathlib.Core.Path.{subst}
use suse_vm.Prelude.{
  ◌∷◌, ℕ, ◌+◌, ◌%◌, ◌^◌, ◌<◌, ◌≡◌, refl, sym, ◌∙◌, ap, true, false, ltb, lt→ltb, le→not_ltb, pos,
  update, update_self, update_ne, inr, arith,
}
use suse_vm.Vmem.Sizes.{nframes, void_idx}
use suse_vm.Vmem.Flags.{changed, has}
use suse_vm.Vmem.State.{World}
use suse_vm.Vmem.Run.{Returns, returns}
use suse_vm.Vmem.Cells.{with_adm}
use suse_vm.Paging.Coherent.{Coherent-used}
use suse_vm.Paging.Load.{Holds-load, Coherent-load, view-load}
use suse_vm.Manager.Paging.{exchange_page}
use suse_vm.Manager.Valid.{IsValid}
use suse_vm.Manager.Exchange.{IsRequest, brought_in, let_go, uncounted, exchange_page-fresh}
use suse_vm.Manager.Served.{Accounted, Served, Done, IsSound-file}

-- the state in which `page_fault` has counted and taken the next unused frame
abbrev pub grown : World → World
grown w =
    let a = w.vmem.adm in
    with_adm w (record a { pf_count = (a.pf_count + 1) % 2 ^ 32; size = a.size + 1 })

used_more : (s g : ℕ) → update (λ g. ltb g s) s true g ≡ ltb g (s + 1)
unfolding update
used_more s g = ground arith

module _ {w : World} {r : ℕ} (v : IsValid w) (req : IsRequest w r)
    (room : w.vmem.adm.size < nframes) where
  unused_f : ltb w.vmem.adm.size w.vmem.adm.size ≡ false
  unused_f = le→not_ltb w.vmem.adm.size w.vmem.adm.size (omega arith)

  pub fresh-Served :
      Served w r
        (let_go (brought_in (uncounted (grown w)) r w.vmem.adm.size) void_idx w.vmem.adm.size)
  fresh-Served = record {
    valid = record {
      size_le = omega arith;
      next_lt = v.next_lt;
      coherent =
          Coherent-used (used_more w.vmem.adm.size)
            (Coherent-load v.coherent unused_f room req.page_lt req.absent);
      unused = λ g a b.
          update_ne w.vmem.pt.framepage w.vmem.adm.size (pos r) g (omega arith)
          ∙ v.unused g (omega arith) b;
      counted = λ l. refl;
      file_length = v.file_length;
      file_sound = v.file_sound;
    };
    same_view = view-load v.coherent unused_f room req.page_lt req.absent;
    loaded = (Holds-load v.coherent unused_f room req.page_lt req.absent).loaded;
    posted = refl;
    attached = refl;
    same_signal = refl;
  }

  fresh-Accounted :
      Accounted w r
        (let_go (brought_in (uncounted (grown w)) r w.vmem.adm.size) void_idx w.vmem.adm.size)
  fresh-Accounted = record {
    frame = w.vmem.adm.size;
    replaced = void_idx;
    was_there = v.unused w.vmem.adm.size (omega arith) room;
    now_there = update_self w.vmem.pt.framepage w.vmem.adm.size (pos r);
    others = λ g ne. update_ne w.vmem.pt.framepage w.vmem.adm.size (pos r) g ne;
    unused_first = inr refl;
    logged =
        ap
          (λ z.
            record {
              req_pageno = z;
              replaced_page = void_idx;
              alloc_frame = pos w.vmem.adm.size;
              pf_count = 0;
              g_count = 0;
            }
            ∷ w.logfile)
          req.requested;
    counter = rw (lt→ltb w.vmem.adm.size nframes room) refl;
    grows = rw (lt→ltb w.vmem.adm.size nframes room) refl;
  }

  IsRequest-grown : IsRequest (grown w) r
  IsRequest-grown = record { page_lt = req.page_lt; requested = req.requested; absent = req.absent }

  not_stored : has (grown w).vmem.adm.pf_count changed ≡ false
  unfolding has
  not_stored = rw (v.counted room) refl

  pub page_fault-fresh :
      Returns (λ _. Done w r) (exchange_page (pos w.vmem.adm.size) w.vmem.adm.req_pageno (grown w))
  page_fault-fresh =
      subst (λ z. Returns (λ _. Done w r) (exchange_page (pos w.vmem.adm.size) z (grown w)))
        (sym req.requested)
        (rw
          (exchange_page-fresh IsRequest-grown room (IsSound-file v)
            (v.unused w.vmem.adm.size (omega arith) room) not_stored)
          (returns (fresh-Served, fresh-Accounted)))
