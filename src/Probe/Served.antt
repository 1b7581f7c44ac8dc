-- ===== src/Probe/Served.antt =====
-- What a page fault of probe/mmanage.c leaves behind.
use suse_vm.Prelude.{
  ℕ, ◌+◌, ◌%◌, ◌^◌, ◌<◌, ◌≤◌, ◌≡◌, ◌≢◌, ◌⊎◌, Bool, true, ltb, if◌then◌else◌, List, ◌∷◌, ℤ, pos,
  update, refl, arith,
}
use suse_vm.Vmem.Sizes.{page_size, npages, nframes}
use suse_vm.Vmem.Flags.{present, has, plain_end, set_flag-plain}
use suse_vm.Vmem.State
use suse_vm.Vmem.State.{PtEntry, LogEvent}
use suse_vm.Paging.Unload.{blank}
use suse_vm.Paging.Load.{load_entry}
use suse_vm.Manager.Valid
use suse_vm.Manager.Valid.{page_cell}
use suse_vm.Probe.State.{Abi, World}
use suse_vm.Probe.Valid.{IsValid, calmed}
use suse_vm.Probe.Moves.{spoiled_pf_count, spoiled_g_count}

-- The page is loaded, the virtual memory is the same, and the semaphore was posted once; no count of
-- an entry has changed.
pub record Served (w : World) (r : ℕ) (w' : World) : Type 0 where
  pub valid : IsValid w'
  pub same_view :
      (q k : ℕ) → q < npages → k < page_size → page_cell w'.base q k ≡ page_cell w.base q k
  pub loaded : has (w'.base.vmem.pt.entries r).flags present ≡ true
  pub posted : w'.base.vmem.adm.sema ≡ w.base.vmem.adm.sema + 1
  pub attached : w'.base.attached ≡ w.base.attached
  pub same_counts : w'.counts ≡ w.counts

-- the fault counter and `g_count` after a fault, which took an unused frame or not
abbrev pub pf_count_after : Abi → (unused : Bool) → ℕ → ℕ
pf_count_after abi unused n =
    let n' = (n + 1) % 2 ^ 32 in if unused then spoiled_pf_count abi n' else n'

abbrev pub g_count_after : Abi → (unused : Bool) → ℕ → ℕ
g_count_after abi unused g = if unused then spoiled_g_count abi g else g

-- What the log and the frame table say of a fault: one frame has gone from the page that was there
-- to the requested one, it is the next unused frame while there is one, and the log names both pages,
-- the frame and the counters, which are overwritten as long as a frame is unused.
pub record Accounted (abi : Abi) (w : World) (r : ℕ) (w' : World) : Type 0 where
  pub frame : ℕ
  pub replaced : ℤ
  pub was_there : w.base.vmem.pt.framepage frame ≡ replaced
  pub now_there : w'.base.vmem.pt.framepage frame ≡ pos r
  pub others : (g : ℕ) → g ≢ frame → w'.base.vmem.pt.framepage g ≡ w.base.vmem.pt.framepage g
  pub unused_first : (nframes ≤ w.base.vmem.adm.size) ⊎ (frame ≡ w.base.vmem.adm.size)
  pub logged :
      w'.base.logfile
      ≡ record {
        req_pageno = pos r;
        replaced_page = replaced;
        alloc_frame = pos frame;
        pf_count = w'.base.vmem.adm.pf_count;
        g_count = w'.g_count;
      }
        ∷ w.base.logfile
  pub counter :
      w'.base.vmem.adm.pf_count
      ≡ pf_count_after abi (ltb w.base.vmem.adm.size nframes) w.base.vmem.adm.pf_count
  pub global_counter : w'.g_count ≡ g_count_after abi (ltb w.base.vmem.adm.size nframes) w.g_count
  pub grows : w'.base.vmem.adm.size ≡ (
      if ltb w.base.vmem.adm.size nframes then w.base.vmem.adm.size + 1 else w.base.vmem.adm.size)

abbrev pub Done : Abi → World → ℕ → World → Type 0
Done abi w r w' = Served w r w' × Accounted abi w r w'

-- The invariant does not look at the log.
pub IsValid-relogged :
    {b : State.World} (l : List LogEvent)
    → Valid.IsValid b
    → Valid.IsValid (calmed (record b { logfile = l }))
IsValid-relogged l v = record {
  size_le = v.size_le;
  next_lt = v.next_lt;
  coherent = v.coherent;
  unused = v.unused;
  counted = λ l. refl;
  file_length = v.file_length;
  file_sound = v.file_sound;
}

-- No second used bit comes up.
abbrev pub IsPlain : (ℕ → PtEntry) → Type 0
IsPlain es = (p : ℕ) → p < npages → (es p).flags < plain_end

pub IsPlain-load :
    (es : ℕ → PtEntry) (r f : ℕ) → r < npages → IsPlain es → IsPlain (load_entry es r f)
unfolding update
IsPlain-load es r f r_lt plain p l =
    ground (arith, plain p l, (set_flag-plain (es r).flags (plain r r_lt)).0)

pub IsPlain-unload : (es : ℕ → PtEntry) (o : ℕ) → IsPlain es → IsPlain (update es o blank)
unfolding update
IsPlain-unload es o plain p l = ground (arith, plain p l)
