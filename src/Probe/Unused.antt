-- ===== src/Probe/Unused.antt =====
-- A page fault of probe/mmanage.c while there are frames that were never used.
use suse_vm.Prelude.{
  ℕ, ◌<◌, ◌≡◌, refl, ap, false, lt→ltb, pos, update_self, update_ne, Bool-cases, inl, inr, ◌∷◌,
  arith,
}
use suse_vm.Vmem.Sizes.{nframes, void_idx}
use suse_vm.Vmem.Run.{Returns, returns}
use suse_vm.Manager.Exchange.{IsRequest, brought_in}
use suse_vm.Manager.Served.{IsSound-file}
use suse_vm.Manager.Unused.{grown, fresh-Served}
use suse_vm.Probe.State.{Abi, World}
use suse_vm.Probe.Cells.{based_on}
use suse_vm.Probe.Paging.{exchange_page}
use suse_vm.Probe.Valid.{IsValid}
use suse_vm.Probe.Moves.{spoiled}
use suse_vm.Probe.Exchange.{let_go, exchange_page-fresh}
use suse_vm.Probe.Served.{Served, Accounted, Done, IsPlain-load}

module _ (abi : Abi) {w : World} {r : ℕ} (v : IsValid w) (req : IsRequest w.base r) where
  module _ (room : w.base.vmem.adm.size < nframes) where
    -- the state after the stores to `entries[-1]`, and at the end
    abbrev overwritten : World
    overwritten = spoiled abi (based_on w (grown w.base))

    abbrev end' : World
    end' = based_on overwritten (
        let_go (brought_in overwritten.base r w.base.vmem.adm.size) void_idx w.base.vmem.adm.size
          overwritten.g_count)

    not_full : w.data_full ≡ false
    not_full = elim (Bool-cases w.data_full) [
      | inl e ↦ absurd (omega (arith, v.full e))
      | inr e ↦ e
    ]

    fresh-here : Served w r end'
    fresh-here =
        let s =
          fresh-Served v.shared
            (record { page_lt = req.page_lt; requested = req.requested; absent = req.absent })
            room in
        record {
          valid = record {
            shared = record {
              size_le = s.valid.size_le;
              next_lt = s.valid.next_lt;
              coherent = s.valid.coherent;
              unused = s.valid.unused;
              counted = λ l. refl;
              file_length = s.valid.file_length;
              file_sound = s.valid.file_sound;
            };
            plain = IsPlain-load w.base.vmem.pt.entries r w.base.vmem.adm.size req.page_lt v.plain;
            full = λ e. absurd (omega (arith, v.full e));
          };
          same_view = s.same_view;
          loaded = s.loaded;
          posted = refl;
          attached = refl;
          same_counts = refl;
        }

    fresh-Accounted : Accounted abi w r end'
    fresh-Accounted = record {
      frame = w.base.vmem.adm.size;
      replaced = void_idx;
      was_there = v.shared.unused w.base.vmem.adm.size (omega arith) room;
      now_there = update_self w.base.vmem.pt.framepage w.base.vmem.adm.size (pos r);
      others = λ g ne. update_ne w.base.vmem.pt.framepage w.base.vmem.adm.size (pos r) g ne;
      unused_first = inr refl;
      logged =
          ap
            (λ y.
              record {
                req_pageno = y;
                replaced_page = void_idx;
                alloc_frame = pos w.base.vmem.adm.size;
                pf_count = overwritten.base.vmem.adm.pf_count;
                g_count = overwritten.g_count;
              }
              ∷ w.base.logfile)
            req.requested;
      counter = rw (lt→ltb w.base.vmem.adm.size nframes room) refl;
      global_counter = rw (lt→ltb w.base.vmem.adm.size nframes room) refl;
      grows = rw (lt→ltb w.base.vmem.adm.size nframes room) refl;
    }

    pub page_fault-fresh :
        Returns
          (λ _. Done abi w r)
          (exchange_page abi (pos w.base.vmem.adm.size) (based_on w (grown w.base)))
    page_fault-fresh =
        let sound = IsSound-file v.shared in
        rw
          (exchange_page-fresh abi room req.page_lt (based_on w (grown w.base)) req.requested
            not_full (record { whole = sound.whole; sound = sound.sound })
            (v.shared.unused w.base.vmem.adm.size (omega arith) room))
          (returns (fresh-here, fresh-Accounted))
