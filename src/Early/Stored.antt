-- ===== src/Early/Stored.antt =====
-- A write and a read of a loaded page in Aufgabe3/vmaccess.c.
use suse_vm.Prelude.{ℕ, ◌+◌, ◌*◌, ◌<◌, ◌≡◌, refl, ℤ, pos, update, update_self, arith}
use suse_vm.Vmem.Sizes.{page_size, nframes}
use suse_vm.Vmem.State.{World}
use suse_vm.Vmem.Run.{ok, Returns, returns}
use suse_vm.Vmem.Cells.{with_entries, with_cells, entry_at-ok, cell_at-ok, put_cell-ok}
use suse_vm.Access.{calc_index_from_page_offset}
use suse_vm.Access.Cells.{count_used-ok}
use suse_vm.Early.Access.{read_page, write_page}
use suse_vm.Early.Resident.{Resident-used, used}
use suse_vm.Early.Requests.{Granted}

-- where the int `o` of page `p` lies
abbrev pub cell_of : (p o : ℕ) → ℕ
cell_of p o = (p + 1) * page_size + o

-- the state after the access to page `p`
abbrev pub used_in : World → ℕ → World
used_in w p = with_entries w (used w.vmem.pt.entries p)

module _ {k : ℕ} {w : World} (g : Granted k w) (full : k < nframes) {p o : ℕ} (h : p < k)
    (o_lt : o < page_size) where
  used_in-Granted : (cells : ℕ → ℤ) → Granted k (with_cells (used_in w p) cells)
  used_in-Granted cells =
      let l = g.loaded in
      record {
        loaded = record {
          table = Resident-used w.vmem.pt.entries p k (omega arith) l.table;
          size = l.size;
          unused = l.unused;
          file = l.file;
        };
        attached = g.attached;
      }

  calc_index-here :
      calc_index_from_page_offset (pos p) o (used_in w p) ≡ ok (pos (cell_of p o)) (used_in w p)
  unfolding calc_index_from_page_offset
  calc_index-here =
      let l = g.loaded in
      let t = Resident-used w.vmem.pt.entries p k (omega arith) l.table in
      rw (entry_at-ok p (used_in w p) (omega arith), t.frame p h) refl

  pub write_page-Stored :
      (v : ℤ)
      → Returns
          (λ _ w'. Granted k w' × (w'.vmem.cells (cell_of p o) ≡ v))
          (write_page (pos p) o v w)
  unfolding write_page
  write_page-Stored v =
      let i : ℕ = cell_of p o in
      rw
        (
          count_used-ok p w (omega arith),
          calc_index-here,
          put_cell-ok i v (used_in w p) (omega arith),
        )
        (returns (used_in-Granted (update w.vmem.cells i v), update_self w.vmem.cells i v))

  pub read_page-Stored :
      Returns (λ x w'. Granted k w' × (x ≡ w.vmem.cells (cell_of p o))) (read_page (pos p) o w)
  unfolding read_page
  read_page-Stored =
      rw
        (
          count_used-ok p w (omega arith),
          calc_index-here,
          cell_at-ok (cell_of p o) (used_in w p) (omega arith),
        )
        (returns (used_in-Granted w.vmem.cells, refl))
