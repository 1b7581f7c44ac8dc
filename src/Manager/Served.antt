-- ===== src/Manager/Served.antt =====
-- What a page fault of working/mmanage.c leaves behind, and why it does so where a page makes room.
use suse_vm.Prelude.{
  ◌⊎◌, if◌then◌else◌, ◌∷◌, ℕ, ◌+◌, ◌%◌, ◌^◌, ◌<◌, ◌≤◌, ◌≡◌, ◌≢◌, refl, ◌∙◌, ap, Bool, true, false,
  ltb, lt→ltb, ℤ, pos, update, update_self, update_ne, arith,
}
use suse_vm.Vmem.Sizes.{page_size, npages, nframes}
use suse_vm.Vmem.Flags.{present, has}
use suse_vm.Vmem.State.{World}
use suse_vm.Paging.Coherent.{Holds, Coherent, Coherent-used}
use suse_vm.Paging.Unload.{blank, stored, Coherent-unload, view-unload}
use suse_vm.Paging.Load.{Holds-load, Coherent-load, view-load}
use suse_vm.Manager.Valid.{IsValid, page_cell}
use suse_vm.Manager.Moves.{IsSound, kept}
use suse_vm.Manager.Exchange.{IsRequest, emptied, brought_in, let_go}

-- What the log and the frame table say of a fault: one frame has gone from the page that was there to
-- the requested one, it is the next unused frame while there is one, and the log names both pages,
-- the frame, and the counter. The counter stays at 0 until all frames are filled.
pub record Accounted (w : World) (r : ℕ) (w' : World) : Type 0 where
  pub frame : ℕ
  pub replaced : ℤ
  pub was_there : w.vmem.pt.framepage frame ≡ replaced
  pub now_there : w'.vmem.pt.framepage frame ≡ pos r
  pub others : (g : ℕ) → g ≢ frame → w'.vmem.pt.framepage g ≡ w.vmem.pt.framepage g
  pub unused_first : (nframes ≤ w.vmem.adm.size) ⊎ (frame ≡ w.vmem.adm.size)
  pub logged :
      w'.logfile
      ≡ record {
        req_pageno = pos r;
        replaced_page = replaced;
        alloc_frame = pos frame;
        pf_count = w'.vmem.adm.pf_count;
        g_count = 0;
      }
        ∷ w.logfile
  pub counter :
      w'.vmem.adm.pf_count
      ≡ (if ltb w.vmem.adm.size nframes then 0 else (w.vmem.adm.pf_count + 1) % 2 ^ 32)
  pub grows :
      w'.vmem.adm.size
      ≡ (if ltb w.vmem.adm.size nframes then w.vmem.adm.size + 1 else w.vmem.adm.size)

-- The page is loaded, the virtual memory is the same, and the semaphore was posted once.
pub record Served (w : World) (r : ℕ) (w' : World) : Type 0 where
  pub valid : IsValid w'
  pub same_view : (q k : ℕ) → q < npages → k < page_size → page_cell w' q k ≡ page_cell w q k
  pub loaded : has (w'.vmem.pt.entries r).flags present ≡ true
  pub posted : w'.vmem.adm.sema ≡ w.vmem.adm.sema + 1
  pub attached : w'.attached ≡ w.attached
  pub same_signal : w'.signal_number ≡ w.signal_number

abbrev pub Done : World → ℕ → World → Type 0
Done w r w' = Served w r w' × Accounted w r w'

pub IsSound-file : {w : World} → IsValid w → IsSound w.pagefile
IsSound-file v = record { whole = v.file_length; sound = v.file_sound }

used_back :
    (used : ℕ → Bool) (f : ℕ)
    → used f ≡ true
    → (g : ℕ) → update (update used f false) f true g ≡ used g
unfolding update
used_back used f u g = ground arith

module _ {w : World} {r f : ℕ} (v : IsValid w) (req : IsRequest w r) (f_lt : f < nframes) where
  -- The page `o` in frame `f` is exchanged for page `r`.
  module _ {o : ℕ} (full : nframes ≤ w.vmem.adm.size)
      (h : Holds w.vmem.pt.entries w.vmem.pt.framepage o f) where
    used_f : ltb f w.vmem.adm.size ≡ true
    used_f = lt→ltb f w.vmem.adm.size (omega arith)

    r_ne : r ≢ o
    r_ne e =
        let a : has (w.vmem.pt.entries o).flags present ≡ false = rw (← e) req.absent in
        let b = h.loaded in cc

    still_absent : has (update w.vmem.pt.entries o blank r).flags present ≡ false
    still_absent =
        ap (λ x. has x.flags present) (update_ne w.vmem.pt.entries o blank r r_ne) ∙ req.absent

    unloaded :
        Coherent
          (update (λ g. ltb g w.vmem.adm.size) f false)
          (update w.vmem.pt.entries o blank)
          w.vmem.pt.framepage
          w.vmem.cells
          (stored w.vmem.pt.entries w.vmem.cells w.pagefile.ints o f)
    unloaded = Coherent-unload v.coherent used_f h

    empty_f : update (λ g. ltb g w.vmem.adm.size) f false f ≡ false
    empty_f = update_self (λ g. ltb g w.vmem.adm.size) f false

    pub full-Served : Served w r (let_go (brought_in (emptied (kept w o f) o) r f) (pos o) f)
    full-Served = record {
      valid = record {
        size_le = v.size_le;
        next_lt = v.next_lt;
        coherent =
            Coherent-used (used_back (λ g. ltb g w.vmem.adm.size) f used_f)
              (Coherent-load unloaded empty_f f_lt req.page_lt still_absent);
        unused = λ g a b. absurd (omega arith);
        counted = λ l. absurd (omega arith);
        file_length = v.file_length;
        file_sound = v.file_sound;
      };
      same_view = λ q k ql kl.
          view-load unloaded empty_f f_lt req.page_lt still_absent q k ql kl
          ∙ view-unload v.coherent used_f h q k kl;
      loaded = (Holds-load unloaded empty_f f_lt req.page_lt still_absent).loaded;
      posted = refl;
      attached = refl;
      same_signal = refl;
    }
