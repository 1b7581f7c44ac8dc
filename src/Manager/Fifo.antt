-- ===== src/Manager/Fifo.antt =====
-- The order in which FIFO of working/mmanage.c replaces pages.
use mathlib.Core.Path.{subst}
use suse_vm.Prelude.{
  ℕ, ◌+◌, ◌%◌, ◌<◌, ◌≤◌, ◌≡◌, refl, sym, lt→ltb, le→not_ltb, List, [], ◌∷◌, ◌++◌, ℤ, pos, update,
  update_self, ring_from, next_pos, distance, mod-next_pos, ring_from-update, ring_from-snoc,
  ring_from-cons, arith,
}
use suse_vm.Vmem.Sizes.{nframes}
use suse_vm.Vmem.State.{LogEvent, World}
use suse_vm.Vmem.Run.{Returns, returns}
use suse_vm.Manager.Replace.{
  fifo, frames_are_occupied, rotate_alloc_idx, find_remove_fifo, use_algorithm, find_remove_frame,
}
use suse_vm.Manager.Paging.{count_fault, exchange_page, page_fault}
use suse_vm.Manager.Valid.{IsValid, Reflagged-refl}
use suse_vm.Manager.Sweep.{rotated, Chosen}
use suse_vm.Manager.Clock.{IsValid-rotated}
use suse_vm.Manager.Exchange.{IsRequest, exchange_page-full}
use suse_vm.Manager.Served.{IsSound-file}
use suse_vm.Manager.Fault.{counted_one, counted-IsValid, IsRequest-chosen, still_full}

-- The pages in the frames, in the order in which the next index comes to them.
abbrev pub queue : World → List ℤ
queue w = ring_from nframes w.vmem.pt.framepage w.vmem.adm.next_alloc_idx nframes

-- The page at the front has gone, the page `r` stands at the back, and the log says so.
pub record Queued (w : World) (r : ℕ) (w' : World) : Type 0 where
  pub front : ℤ
  pub others : List ℤ
  pub before : queue w ≡ front ∷ others
  pub after : queue w' ≡ others ++ (pos r ∷ [])
  pub event : LogEvent
  pub logged : w'.logfile ≡ event ∷ w.logfile
  pub removed : event.replaced_page ≡ front
  pub loaded : event.req_pageno ≡ pos r

-- the frames from the one after `n` on, when frame `n` has another page
ring-replaced :
    (fp : ℕ → ℤ) (n : ℕ) (z : ℤ)
    → n < nframes
    → ring_from nframes (update fp n z) ((n + 1) % nframes) nframes
      ≡ ring_from nframes fp (next_pos nframes n) 15 ++ (z ∷ [])
ring-replaced fp n z h =
    let q : ℕ = next_pos nframes n in
    let q_lt : q < nframes = ground arith in
    let far : distance nframes q n ≡ 15 = ground arith in
    rw
      (
        mod-next_pos nframes n h,
        ring_from-snoc nframes (update fp n z) n q 15 q_lt h far,
        update_self fp n z,
        ring_from-update nframes fp n z q 15 q_lt h (omega arith),
      )
      refl

module _ {w : World} {r : ℕ} (v : IsValid w) (req : IsRequest w r)
    (full : nframes ≤ w.vmem.adm.size) where
  -- the state when `find_remove_fifo` has returned
  abbrev turned : World
  turned = rotated (counted_one w) w.vmem.pt.entries ((w.vmem.adm.next_alloc_idx + 1) % nframes)

  turned-Chosen : Chosen (counted_one w) (pos w.vmem.adm.next_alloc_idx) turned
  turned-Chosen = record {
    frame = w.vmem.adm.next_alloc_idx;
    is_frame = refl;
    frame_lt = v.next_lt;
    es = w.vmem.pt.entries;
    next = (w.vmem.adm.next_alloc_idx + 1) % nframes;
    state = refl;
    same = Reflagged-refl w.vmem.pt.entries;
    valid =
        IsValid-rotated w.vmem.pt.entries _ (counted-IsValid v req full) (omega arith) v.coherent;
  }

  exchange_page-Queued :
      Returns (λ _. Queued w r) (exchange_page (pos w.vmem.adm.next_alloc_idx) (pos r) turned)
  exchange_page-Queued =
      let c = turned-Chosen in
      let n : ℕ = w.vmem.adm.next_alloc_idx in
      let (o, h) =
        c.valid.coherent.filled n (lt→ltb n w.vmem.adm.size (omega (arith, v.next_lt))) in
      rw
        (exchange_page-full (IsRequest-chosen v req full c) v.next_lt o (still_full v req full c)
          (IsSound-file c.valid) h)
        (returns (record {
          front = w.vmem.pt.framepage n;
          others = ring_from nframes w.vmem.pt.framepage (next_pos nframes n) 15;
          before = ring_from-cons nframes w.vmem.pt.framepage n nframes (omega arith);
          after = ring-replaced w.vmem.pt.framepage n (pos r) v.next_lt;
          event = _;
          logged = refl;
          removed = sym h.page_of;
          loaded = req.requested;
        }))

-- On a request for a page that is not loaded, from a valid state with all frames filled, under FIFO:
-- taken in the order of the next index, the pages in the frames are a queue; the page at its front is
-- replaced, as the log says, and the requested page stands at its back.
pub page_fault-Queued :
    (w : World) (r : ℕ)
    → IsValid w
    → IsRequest w r
    → nframes ≤ w.vmem.adm.size
    → Returns (λ _. Queued w r) (page_fault fifo w)
unfolding page_fault count_fault find_remove_frame frames_are_occupied use_algorithm
    find_remove_fifo rotate_alloc_idx
page_fault-Queued w r v req full = rw (le→not_ltb w.vmem.adm.size nframes full) (
    subst
      (λ z.
        Returns (λ _. Queued w r)
          (exchange_page (pos w.vmem.adm.next_alloc_idx) z (turned v req full)))
      (sym req.requested) (exchange_page-Queued v req full))
