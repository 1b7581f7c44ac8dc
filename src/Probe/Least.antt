-- ===== src/Probe/Least.antt =====
-- The page that LFU of probe/mmanage.c replaces.
use mathlib.Core.Path.{subst}
use suse_vm.Prelude.{ℕ, ◌≤◌, ◌≡◌, refl, sym, lt→ltb, le→not_ltb, pos, ◌∷◌, update_self, arith}
use suse_vm.Vmem.Sizes.{nframes}
use suse_vm.Vmem.State.{LogEvent}
use suse_vm.Vmem.Run.{Returns, returns, bind}
use suse_vm.Manager.Exchange.{IsRequest}
use suse_vm.Manager.Served.{IsSound-file}
use suse_vm.Manager.Fault.{counted-IsValid, full_size}
use suse_vm.Manager.Paging
use suse_vm.Probe.State.{Abi, World}
use suse_vm.Probe.Replace.{lfu, use_algorithm, find_remove_frame, set_data_full}
use suse_vm.Probe.Paging.{exchange_page, page_fault}
use suse_vm.Probe.Valid.{IsValid}
use suse_vm.Probe.Picked.{unmoved}
use suse_vm.Probe.Lfu.{IsLeast, lfu-IsLeast}
use suse_vm.Probe.Exchange.{exchange_page-full}
use suse_vm.Probe.Full.{filled, shared, chosen-IsPlain}

-- The page `r` has taken the place of the first page that was read least often, and the log says so.
pub record Evicted (w : World) (r : ℕ) (w' : World) : Type 0 where
  pub frame : ℕ
  pub is_least : IsLeast w frame
  pub placed : w'.base.vmem.pt.framepage frame ≡ pos r
  pub event : LogEvent
  pub logged : w'.base.logfile ≡ event ∷ w.base.logfile
  pub removed : event.replaced_page ≡ w.base.vmem.pt.framepage frame
  pub loaded : event.req_pageno ≡ pos r

module _ (abi : Abi) {w : World} {r : ℕ} (v : IsValid w) (req : IsRequest w.base r)
    (full : nframes ≤ w.base.vmem.adm.size) where
  exchange_page-Evicted :
      (f : ℕ)
      → IsLeast (filled w) f
      → Returns (λ _. Evicted w r) (exchange_page abi (pos f) (filled w))
  exchange_page-Evicted f l =
      let c = unmoved (counted-IsValid (shared abi v req full) req full) f l.frame_lt in
      let (o, h) =
        c.valid.coherent.filled f (lt→ltb f w.base.vmem.adm.size (omega (arith, l.frame_lt))) in
      rw
        (exchange_page-full abi l.frame_lt req.page_lt (filled w) o req.requested refl
          (IsSound-file c.valid) h (chosen-IsPlain abi v req full c o h.page_lt))
        (returns (record {
          frame = f;
          is_least = record { frame_lt = l.frame_lt; least = l.least; first = l.first };
          placed = update_self w.base.vmem.pt.framepage f (pos r);
          event = _;
          logged = refl;
          removed = sym h.page_of;
          loaded = req.requested;
        }))

-- On a request for a page that is not loaded, from a valid state with all frames filled, under LFU: the
-- requested page takes the place of the first of the pages that were read least often, by their counts
-- as ints, as the log says.
pub page_fault-Evicted :
    (abi : Abi) (w : World) (r : ℕ)
    → IsValid w
    → IsRequest w.base r
    → nframes ≤ w.base.vmem.adm.size
    → Returns (λ _. Evicted w r) (page_fault abi lfu w)
unfolding page_fault Paging.count_fault find_remove_frame set_data_full use_algorithm
page_fault-Evicted abi w r v req full =
    let s = shared abi v req full in
    rw (le→not_ltb w.base.vmem.adm.size nframes full) (
      bind (lfu-IsLeast abi {w = filled w} (counted-IsValid s req full) (full_size s req full))
        (λ z w' c.
          subst (λ u. Returns (λ _. Evicted w r) (exchange_page abi z u)) (sym c.0)
            (subst (λ y. Returns (λ _. Evicted w r) (exchange_page abi y (filled w))) (sym c.2)
              (exchange_page-Evicted abi v req full c.1 c.3))))
