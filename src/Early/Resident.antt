-- ===== src/Early/Resident.antt =====
-- The pages that the manager of Aufgabe3/ has loaded, when a client asks for them in their order: page
-- `p` lies in frame `p + 1`.
use suse_vm.Prelude.{
  ℕ, suc, ◌+◌, ◌<◌, ◌≤◌, ◌≡◌, refl, ◌∙◌, true, false, ◌==◌, pos, update, Bool-cases, inl, inr,
  arith,
}
use suse_vm.Vmem.Sizes.{npages, nframes, void_idx}
use suse_vm.Vmem.Flags.{present, has, flags_end, has-set_flag, set_flag-lt}
use suse_vm.Vmem.State.{PtEntry, World}
use suse_vm.Paging.Touch.{reflag, reflag-frame, reflag-present}
use suse_vm.Manager.Moves.{IsSound}
use suse_vm.Access.Cells.{used_flags, used_flags-lt, used_flags-present}
use suse_vm.Early.Fault.{Filled}

-- The table holds the pages below `k`, in the frames from 1 on.
pub record Resident (es : ℕ → PtEntry) (k : ℕ) : Type 0 where
  pub small : (q : ℕ) → q < npages → (es q).flags < flags_end
  pub here : (q : ℕ) → q < k → has (es q).flags present ≡ true
  pub frame : (q : ℕ) → q < k → (es q).frame ≡ pos (q + 1)
  pub absent : (q : ℕ) → k ≤ q → q < npages → has (es q).flags present ≡ false

pub record Loaded (k : ℕ) (w : World) : Type 0 where
  pub table : Resident w.vmem.pt.entries k
  pub size : w.vmem.adm.size ≡ k
  pub unused : (f : ℕ) → k < f → f < nframes → w.vmem.pt.framepage f ≡ void_idx
  pub file : IsSound w.pagefile

-- the table after an access to page `p`
abbrev pub used : (ℕ → PtEntry) → ℕ → ℕ → PtEntry
used es p = reflag es p (used_flags (es p).flags)

pub Resident-used :
    (es : ℕ → PtEntry) (p k : ℕ) → p < npages → Resident es k → Resident (used es p) k
unfolding update
Resident-used es p k h r =
    let fl : ℕ = used_flags (es p).flags in
    let e = used_flags-present (es p).flags (r.small p h) in
    record {
      small = λ q l. elim (Bool-cases (q == p)) [
        | inl at ↦ rw at (used_flags-lt (es p).flags (r.small p h))
        | inr off ↦ rw off (r.small q l)
      ];
      here = λ q l. reflag-present es p fl e q ∙ r.here q l;
      frame = λ q l. reflag-frame es p fl e q ∙ r.frame q l;
      absent = λ q a l. reflag-present es p fl e q ∙ r.absent q a l;
    }

-- The fault for the next page makes it one more.
pub Filled-Loaded :
    {k : ℕ} {w w' : World}
    → k + 1 < nframes
    → Loaded k w
    → Filled w k (k + 1) w'
    → Loaded (suc k) w'
Filled-Loaded {k} {w} {w'} room l f =
    let old : ℕ = (w.vmem.pt.entries k).flags in
    let lt = l.table.small k (omega arith) in
    record {
      table = record {
        small = λ q h. elim (Bool-cases (q == k)) [
          | inl at ↦ let e : q ≡ k = ground arith in rw (e, f.entry) (set_flag-lt old present lt)
          | inr off ↦ rw (f.other_entries q (ground arith)) (l.table.small q h)
        ];
        here = λ q h. elim (Bool-cases (q == k)) [
          | inl at ↦
              let e : q ≡ k = ground arith in rw (e, f.entry) (has-set_flag old present present lt)
          | inr off ↦ rw (f.other_entries q (ground arith)) (l.table.here q (ground arith))
        ];
        frame = λ q h. elim (Bool-cases (q == k)) [
          | inl at ↦ let e : q ≡ k = ground arith in rw (e, f.entry) refl
          | inr off ↦ rw (f.other_entries q (ground arith)) (l.table.frame q (ground arith))
        ];
        absent = λ q a h. rw (f.other_entries q (omega arith)) (l.table.absent q (omega arith) h);
      };
      size = f.grown ∙ omega arith;
      unused = λ g a h. f.other_pages g (omega arith) ∙ l.unused g (omega arith) h;
      file = f.still_sound;
    }
