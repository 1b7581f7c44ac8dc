-- ===== src/Manager/Valid.antt =====
-- The invariant of the shared state between two accesses, and the virtual memory that the state
-- stands for.
use suse_vm.Prelude.{ℕ, ◌/◌, ◌%◌, ◌<◌, ◌≤◌, ◌≡◌, refl, ◌∙◌, false, ltb, ℤ, arith}
use suse_vm.Vmem.Sizes.{page_size, nframes, virtmem_size, void_idx}
use suse_vm.Vmem.Flags.{present, changed, has}
use suse_vm.Vmem.State.{PtEntry, World}
use suse_vm.Paging.Coherent.{Coherent, page_view}

-- The frames below `size` are filled and agree with the page table and the file. `counted` says
-- what the store to `entries[-1]` does: until the last frame is filled, no fault is counted.
pub record IsValid (w : World) : Type 0 where
  pub size_le : w.vmem.adm.size ≤ nframes
  pub next_lt : w.vmem.adm.next_alloc_idx < nframes
  pub coherent :
      Coherent
        (λ f. ltb f w.vmem.adm.size)
        w.vmem.pt.entries
        w.vmem.pt.framepage
        w.vmem.cells
        w.pagefile.ints
  pub unused : (f : ℕ) → w.vmem.adm.size ≤ f → f < nframes → w.vmem.pt.framepage f ≡ void_idx
  pub counted : w.vmem.adm.size < nframes → w.vmem.adm.pf_count ≡ 0
  pub file_length : w.pagefile.length ≡ virtmem_size
  pub file_sound : (i : ℕ) → i < virtmem_size → w.pagefile.broken i ≡ false

-- offset `k` of page `p`
abbrev pub page_cell : World → ℕ → ℕ → ℤ
page_cell w = page_view w.vmem.pt.entries w.vmem.cells w.pagefile.ints

-- the int at a virtual address
unfoldable pub view : World → ℕ → ℤ
view w a = page_cell w (a / page_size) (a % page_size)

-- The second table differs from the first in used bits at most, and in that some are cleared.
pub record Reflagged (es es' : ℕ → PtEntry) : Type 0 where
  pub same_frame : (q : ℕ) → (es' q).frame ≡ (es q).frame
  pub same_present : (q : ℕ) → has (es' q).flags present ≡ has (es q).flags present
  pub same_changed : (q : ℕ) → has (es' q).flags changed ≡ has (es q).flags changed
  pub lower : (q : ℕ) → (es' q).flags ≤ (es q).flags

pub Reflagged-refl : (es : ℕ → PtEntry) → Reflagged es es
Reflagged-refl es = record {
  same_frame = λ q. refl;
  same_present = λ q. refl;
  same_changed = λ q. refl;
  lower = λ q. omega arith;
}

pub Reflagged-trans :
    {es es' es'' : ℕ → PtEntry} → Reflagged es es' → Reflagged es' es'' → Reflagged es es''
Reflagged-trans r s = record {
  same_frame = λ q. s.same_frame q ∙ r.same_frame q;
  same_present = λ q. s.same_present q ∙ r.same_present q;
  same_changed = λ q. s.same_changed q ∙ r.same_changed q;
  lower = λ q. omega (arith, r.lower q, s.lower q);
}

pub view-Reflagged :
    {es es' : ℕ → PtEntry} (cells ints : ℕ → ℤ)
    → Reflagged es es'
    → (q k : ℕ) → page_view es' cells ints q k ≡ page_view es cells ints q k
unfolding page_view
view-Reflagged cells ints r q k = rw (r.same_present q, r.same_frame q) refl
