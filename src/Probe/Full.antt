-- ===== src/Probe/Full.antt =====
-- A page fault of probe/mmanage.c with all frames filled.
use mathlib.Core.Path.{subst, ap₂}
use suse_vm.Prelude.{
  ℕ, ◌≤◌, ◌≡◌, refl, sym, ◌∙◌, ap, true, lt→ltb, le→not_ltb, ℤ, pos, update_self, update_ne, inl,
  ◌∷◌, arith,
}
use suse_vm.Vmem.Sizes.{nframes}
use suse_vm.Vmem.State
use suse_vm.Vmem.Run.{Returns, returns}
use suse_vm.Paging.Coherent.{Holds}
use suse_vm.Manager.Valid
use suse_vm.Manager.Sweep
use suse_vm.Manager.Moves.{kept}
use suse_vm.Manager.Exchange.{IsRequest, emptied, brought_in}
use suse_vm.Manager.Served.{IsSound-file, full-Served}
use suse_vm.Manager.Fault.{counted_one, IsRequest-chosen, still_full, Served-chosen}
use suse_vm.Probe.State.{Abi, World}
use suse_vm.Probe.Cells.{based_on}
use suse_vm.Probe.Paging.{exchange_page}
use suse_vm.Probe.Valid.{IsValid, IsValid-full}
use suse_vm.Probe.Exchange.{let_go, exchange_page-full}
use suse_vm.Probe.Served.{
  Served, Accounted, Done, IsValid-relogged, IsPlain, IsPlain-load, IsPlain-unload,
}

-- the state in which the fault was counted and `data_full` is set
abbrev pub filled : World → World
filled w = record w { base = counted_one w.base; data_full = true }

module _ (abi : Abi) {w : World} {r : ℕ} (v : IsValid w) (req : IsRequest w.base r) where
  module _ (full : nframes ≤ w.base.vmem.adm.size) where
    pub shared : Valid.IsValid w.base
    shared = IsValid-full v full

    module _ {z : ℤ} {b : State.World} (c : Sweep.Chosen (counted_one w.base) z b) where
      pub chosen-IsPlain : IsPlain b.vmem.pt.entries
      chosen-IsPlain p l =
          let e : (b.vmem.pt.entries p).flags ≡ (c.es p).flags =
            ap (λ (u : State.World). (u.vmem.pt.entries p).flags) c.state in
          omega (arith, e, c.same.lower p, v.plain p l)

      pub asked : IsRequest b r
      asked = IsRequest-chosen shared req full c

      pub all_filled : nframes ≤ b.vmem.adm.size
      all_filled = still_full shared req full c

      -- the state at the end, when page `o` made room
      abbrev end : ℕ → World
      end o =
          based_on (filled w)
            (let_go (brought_in (emptied (kept b o c.frame) o) r c.frame) (pos o) c.frame w.g_count)

      module _ {o : ℕ} (h : Holds b.vmem.pt.entries b.vmem.pt.framepage o c.frame) where
        end-Served : Served w r (end o)
        end-Served =
            let s =
              Served-chosen shared req full c (full-Served c.valid asked c.frame_lt all_filled h) in
            record {
              valid = record {
                shared = IsValid-relogged _ s.valid;
                plain =
                    IsPlain-load _ r c.frame req.page_lt
                      (IsPlain-unload b.vmem.pt.entries o chosen-IsPlain);
                full = λ _. all_filled;
              };
              same_view = s.same_view;
              loaded = s.loaded;
              posted = s.posted;
              attached = s.attached;
              same_counts = refl;
            }

        end-Accounted : Accounted abi w r (end o)
        end-Accounted = record {
          frame = c.frame;
          replaced = pos o;
          was_there =
              ap (λ (u : State.World). u.vmem.pt.framepage c.frame) (sym c.state) ∙ h.page_of;
          now_there = update_self b.vmem.pt.framepage c.frame (pos r);
          others = λ g ne.
              update_ne b.vmem.pt.framepage c.frame (pos r) g ne
              ∙ ap (λ (u : State.World). u.vmem.pt.framepage g) c.state;
          unused_first = inl full;
          logged =
              ap₂
                (λ y l.
                  record {
                    req_pageno = y;
                    replaced_page = pos o;
                    alloc_frame = pos c.frame;
                    pf_count = b.vmem.adm.pf_count;
                    g_count = w.g_count;
                  }
                  ∷ l)
                asked.requested (ap (λ (u : State.World). u.logfile) c.state);
          counter =
              rw (le→not_ltb w.base.vmem.adm.size nframes full)
                (ap (λ (u : State.World). u.vmem.adm.pf_count) c.state);
          global_counter = rw (le→not_ltb w.base.vmem.adm.size nframes full) refl;
          grows =
              rw (le→not_ltb w.base.vmem.adm.size nframes full)
                (ap (λ (u : State.World). u.vmem.adm.size) c.state);
        }

      pub page_fault-chosen :
          Returns (λ _. Done abi w r) (exchange_page abi z (based_on (filled w) b))
      page_fault-chosen =
          let (o, h) =
            c.valid.coherent.filled c.frame
              (lt→ltb c.frame b.vmem.adm.size (omega (arith, all_filled, c.frame_lt))) in
          subst (λ y. Returns (λ _. Done abi w r) (exchange_page abi y (based_on (filled w) b)))
            (sym c.is_frame)
            (rw
              (exchange_page-full abi c.frame_lt req.page_lt (based_on (filled w) b) o
                asked.requested refl (IsSound-file c.valid) h (chosen-IsPlain o h.page_lt))
              (returns (end-Served h, end-Accounted h)))
