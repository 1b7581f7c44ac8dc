-- ===== src/Manager/Fault.antt =====
-- `page_fault` of working/mmanage.c loads the requested page, and the virtual memory stays the same.
use mathlib.Core.Path.{subst, ap₂}
use suse_vm.Prelude.{
  ◌∷◌, ltb→lt, ℕ, ◌+◌, ◌%◌, ◌^◌, ◌≤◌, ◌≡◌, refl, sym, ◌∙◌, ap, false, ltb, lt→ltb, le→not_ltb, ℤ,
  pos, update_self, update_ne, Bool-cases, inl, inr, arith,
}
use suse_vm.Vmem.Sizes.{nframes}
use suse_vm.Vmem.Flags.{present, has}
use suse_vm.Vmem.State.{World}
use suse_vm.Vmem.Run.{Returns, returns, bind}
use suse_vm.Vmem.Cells.{with_adm}
use suse_vm.Manager.Replace.{Algorithm, frames_are_occupied, find_remove_frame, is_void}
use suse_vm.Manager.Paging.{count_fault, exchange_page, page_fault}
use suse_vm.Manager.Valid.{IsValid, page_cell, view-Reflagged}
use suse_vm.Manager.Sweep.{Chosen}
use suse_vm.Manager.Clock.{use_algorithm-Chosen}
use suse_vm.Manager.Moves.{kept}
use suse_vm.Manager.Exchange.{IsRequest, emptied, brought_in, let_go, exchange_page-full}
use suse_vm.Manager.Served.{Accounted, Served, Done, IsSound-file, full-Served}
use suse_vm.Manager.Unused.{page_fault-fresh}

abbrev pub counted_one : World → World
counted_one w = with_adm w (record w.vmem.adm { pf_count = (w.vmem.adm.pf_count + 1) % 2 ^ 32 })

Chosen-not_void : {w w' : World} {z : ℤ} → Chosen w z w' → is_void z ≡ false
Chosen-not_void c = rw c.is_frame refl

module _ {w : World} {r : ℕ} (v : IsValid w) (req : IsRequest w r)
    (full : nframes ≤ w.vmem.adm.size) where
  pub full_size : w.vmem.adm.size ≡ nframes
  full_size = omega (arith, v.size_le)

  pub counted-IsValid : IsValid (counted_one w)
  counted-IsValid = record {
    size_le = v.size_le;
    next_lt = v.next_lt;
    coherent = v.coherent;
    unused = v.unused;
    counted = λ l. absurd (omega arith);
    file_length = v.file_length;
    file_sound = v.file_sound;
  }

  module _ {z : ℤ} {w' : World} (c : Chosen (counted_one w) z w') where
    pub IsRequest-chosen : IsRequest w' r
    IsRequest-chosen = record {
      page_lt = req.page_lt;
      requested = ap (λ (u : World). u.vmem.adm.req_pageno) c.state ∙ req.requested;
      absent =
          ap (λ (u : World). has (u.vmem.pt.entries r).flags present) c.state
          ∙ c.same.same_present r
          ∙ req.absent;
    }

    pub still_full : nframes ≤ w'.vmem.adm.size
    still_full = rw (ap (λ (u : World). u.vmem.adm.size) c.state) full

    pub Served-chosen : {w'' : World} → Served w' r w'' → Served w r w''
    Served-chosen s = record {
      valid = s.valid;
      same_view = λ q k ql kl.
          s.same_view q k ql kl
          ∙ ap (λ (u : World). page_cell u q k) c.state
          ∙ view-Reflagged w.vmem.cells w.pagefile.ints c.same q k;
      loaded = s.loaded;
      posted = s.posted ∙ ap (λ (u : World). u.vmem.adm.sema + 1) c.state;
      attached = s.attached ∙ ap (λ (u : World). u.attached) c.state;
      same_signal = s.same_signal ∙ ap (λ (u : World). u.signal_number) c.state;
    }

    module _ (o : ℕ) (h : w'.vmem.pt.framepage c.frame ≡ pos o) where
      chosen-Accounted :
          Accounted w r
            (let_go (brought_in (emptied (kept w' o c.frame) o) r c.frame) (pos o) c.frame)
      chosen-Accounted = record {
        frame = c.frame;
        replaced = pos o;
        was_there = ap (λ (u : World). u.vmem.pt.framepage c.frame) (sym c.state) ∙ h;
        now_there = update_self w'.vmem.pt.framepage c.frame (pos r);
        others = λ g ne.
            update_ne w'.vmem.pt.framepage c.frame (pos r) g ne
            ∙ ap (λ (u : World). u.vmem.pt.framepage g) c.state;
        unused_first = inl full;
        logged =
            ap₂
              (λ z l.
                record {
                  req_pageno = z;
                  replaced_page = pos o;
                  alloc_frame = pos c.frame;
                  pf_count = w'.vmem.adm.pf_count;
                  g_count = 0;
                }
                ∷ l)
              IsRequest-chosen.requested (ap (λ (u : World). u.logfile) c.state);
        counter =
            rw (le→not_ltb w.vmem.adm.size nframes full)
              (ap (λ (u : World). u.vmem.adm.pf_count) c.state);
        grows =
            rw (le→not_ltb w.vmem.adm.size nframes full)
              (ap (λ (u : World). u.vmem.adm.size) c.state);
      }

    page_fault-chosen : Returns (λ _. Done w r) (exchange_page z w.vmem.adm.req_pageno w')
    page_fault-chosen =
        let (o, h) =
          c.valid.coherent.filled c.frame
            (lt→ltb c.frame w'.vmem.adm.size (omega (arith, still_full, c.frame_lt))) in
        subst (λ p. Returns (λ _. Done w r) (exchange_page z p w')) (sym req.requested)
          (subst (λ y. Returns (λ _. Done w r) (exchange_page y (pos r) w')) (sym c.is_frame)
            (rw
              (exchange_page-full IsRequest-chosen c.frame_lt o still_full (IsSound-file c.valid) h)
              (returns (
                Served-chosen (full-Served c.valid IsRequest-chosen c.frame_lt still_full h),
                chosen-Accounted o h.page_of,
              ))))

-- On a request for a page that is not loaded, from a valid state, `page_fault` returns under each
-- algorithm. The page is loaded, the virtual memory is the same, the invariant holds and the
-- semaphore is posted once. Exactly one frame changes its page, the next unused one while there is
-- one; the log names both pages and the frame; the fault counter is 0 until all frames are filled
-- and counts from there on.
pub page_fault-Served :
    (alg : Algorithm) (w : World) (r : ℕ)
    → IsValid w
    → IsRequest w r
    → Returns (λ _. Done w r) (page_fault alg w)
unfolding page_fault count_fault find_remove_frame frames_are_occupied
page_fault-Served alg w r v req = elim (Bool-cases (ltb w.vmem.adm.size nframes)) [
  | inl room ↦ rw room (page_fault-fresh v req (ltb→lt _ _ room))
  | inr full ↦
      let f : nframes ≤ w.vmem.adm.size = ground arith in
      rw full (
        bind
          (bind
            (use_algorithm-Chosen alg (counted_one w) (counted-IsValid v req f) (full_size v req f))
            (λ z w' c. rw (Chosen-not_void c) (returns c)))
          (λ z w' c. page_fault-chosen v req f c))
]
