-- ===== src/Access/Cells.antt =====
-- The access itself in working/vmaccess.c, once the page is loaded: `countUsed`, `read_page` and
-- `write_page`.
use suse_vm.Prelude.{
  ℕ, ◌+◌, ◌*◌, ◌<◌, ◌≡◌, ◌≢◌, refl, sym, ◌∙◌, ap, true, ◌&&◌, ◌==◌, ltb, if◌then◌else◌, ℤ, pos,
  update_self, update_twice, Bool-cases, inl, inr, arith,
}
use suse_vm.Vmem.Sizes.{page_size, npages, physmem_size}
use suse_vm.Vmem.Flags.{
  Flag, present, changed, usedbit1, usedbit2, has, set_flag, flags_end, has-set_flag, set_flag-lt,
}
use suse_vm.Vmem.State.{PtEntry, World}
use suse_vm.Vmem.Run.{ok, Returns, returns}
use suse_vm.Vmem.Cells.{
  with_entries, with_cells, entry_at-ok, put_entry-ok, cell_at-ok, put_cell-ok,
}
use suse_vm.Paging.Coherent.{Holds, Coherent, page_view}
use suse_vm.Paging.Touch.{
  reflag, Coherent-reflag, Holds-reflag, view-reflag, Coherent-store, view-store,
}
use suse_vm.Manager.Valid.{IsValid, page_cell}
use suse_vm.Access.{count_used, calc_index_from_page_offset, read_page, write_page}

-- the flags after `countUsed`
unfoldable pub used_flags : ℕ → ℕ
used_flags fl =
    if has fl usedbit1 then set_flag (set_flag fl usedbit2) usedbit1 else set_flag fl usedbit1

pub count_used-ok :
    (p : ℕ) (w : World)
    → p < npages
    → count_used (pos p) w
      ≡ ok tt (with_entries w (reflag w.vmem.pt.entries p (used_flags (w.vmem.pt.entries p).flags)))
unfolding count_used used_flags
count_used-ok p w h =
    rw (entry_at-ok p w h) (elim (Bool-cases (has (w.vmem.pt.entries p).flags usedbit1)) [
      | inl again ↦
          rw
            (
              again,
              put_entry-ok p _ w h,
              entry_at-ok p
                  (with_entries w
                    (reflag w.vmem.pt.entries p (set_flag (w.vmem.pt.entries p).flags usedbit2)))
                  h,
              put_entry-ok p _
                  (with_entries w
                    (reflag w.vmem.pt.entries p (set_flag (w.vmem.pt.entries p).flags usedbit2)))
                  h,
              update_self,
              update_twice,
            )
            refl
      | inr first ↦ rw (first, entry_at-ok p w h, put_entry-ok p _ w h) refl
    ])

-- Setting a flag that is not `present` keeps that one.
pub set-present :
    (fl : ℕ) (g : Flag)
    → fl < flags_end
    → g ≢ present
    → has (set_flag fl g) present ≡ has fl present
set-present fl present lt ne = absurd (ne refl)
set-present fl changed lt ne = has-set_flag fl changed present lt
set-present fl usedbit1 lt ne = has-set_flag fl usedbit1 present lt
set-present fl usedbit2 lt ne = has-set_flag fl usedbit2 present lt

pub set-changed :
    (fl : ℕ) (g : Flag)
    → fl < flags_end
    → g ≢ changed
    → has (set_flag fl g) changed ≡ has fl changed
set-changed fl changed lt ne = absurd (ne refl)
set-changed fl present lt ne = has-set_flag fl present changed lt
set-changed fl usedbit1 lt ne = has-set_flag fl usedbit1 changed lt
set-changed fl usedbit2 lt ne = has-set_flag fl usedbit2 changed lt

pub used_flags-lt : (fl : ℕ) → fl < flags_end → used_flags fl < flags_end
unfolding used_flags
used_flags-lt fl lt = ground (
  arith,
  set_flag-lt fl usedbit1 lt,
  set_flag-lt fl usedbit2 lt,
  set_flag-lt (set_flag fl usedbit2) usedbit1,
)

pub used_flags-present : (fl : ℕ) → fl < flags_end → has (used_flags fl) present ≡ has fl present
unfolding used_flags
used_flags-present fl lt = ground (
  arith,
  set-present fl usedbit1 lt,
  set-present fl usedbit2 lt,
  set-present (set_flag fl usedbit2) usedbit1,
  set_flag-lt fl usedbit2 lt,
)

used_flags-changed : (fl : ℕ) → fl < flags_end → has (used_flags fl) changed ≡ has fl changed
unfolding used_flags
used_flags-changed fl lt = ground (
  arith,
  set-changed fl usedbit1 lt,
  set-changed fl usedbit2 lt,
  set-changed (set_flag fl usedbit2) usedbit1,
  set_flag-lt fl usedbit2 lt,
)

-- An invariant state with other flags, or other ints, that still agree is valid.
IsValid-parts :
    {w : World} (es : ℕ → PtEntry) (cells : ℕ → ℤ)
    → IsValid w
    → Coherent (λ f. ltb f w.vmem.adm.size) es w.vmem.pt.framepage cells w.pagefile.ints
    → IsValid (with_cells (with_entries w es) cells)
IsValid-parts es cells v c = record {
  size_le = v.size_le;
  next_lt = v.next_lt;
  coherent = c;
  unused = v.unused;
  counted = v.counted;
  file_length = v.file_length;
  file_sound = v.file_sound;
}

-- What a read leaves, and what it returns.
pub record DidRead (w : World) (p k : ℕ) (value : ℤ) (w' : World) : Type 0 where
  pub valid : IsValid w'
  pub is_value : value ≡ page_cell w p k
  pub same_view : (q j : ℕ) → q < npages → j < page_size → page_cell w' q j ≡ page_cell w q j
  pub same_sema : w'.vmem.adm.sema ≡ w.vmem.adm.sema
  pub same_client : w'.attached ≡ w.attached
  pub same_signal : w'.signal_number ≡ w.signal_number

-- What a write leaves.
pub record DidWrite (w : World) (p k : ℕ) (value : ℤ) (w' : World) : Type 0 where
  pub valid : IsValid w'
  pub new_view :
      (q j : ℕ)
      → q < npages
      → j < page_size
      → page_cell w' q j ≡ (if q == p && j == k then value else page_cell w q j)
  pub same_sema : w'.vmem.adm.sema ≡ w.vmem.adm.sema
  pub same_client : w'.attached ≡ w.attached
  pub same_signal : w'.signal_number ≡ w.signal_number

-- the table after `countUsed` of page `p`, and after the changed flag is set as well
abbrev marked : World → ℕ → ℕ → PtEntry
marked w p = reflag w.vmem.pt.entries p (used_flags (w.vmem.pt.entries p).flags)

abbrev dirtied : World → ℕ → ℕ → PtEntry
dirtied w p = reflag (marked w p) p (set_flag (marked w p p).flags changed)

module _ {w : World} {p k : ℕ} (v : IsValid w) (p_lt : p < npages) (k_lt : k < page_size)
    (loaded : has (w.vmem.pt.entries p).flags present ≡ true) where
  small : (w.vmem.pt.entries p).flags < flags_end
  small = v.coherent.small p p_lt

  stays :
      has (used_flags (w.vmem.pt.entries p).flags) present ≡ has (w.vmem.pt.entries p).flags present
  stays = used_flags-present _ small

  marked-Coherent :
      Coherent
        (λ f. ltb f w.vmem.adm.size)
        (marked w p)
        w.vmem.pt.framepage
        w.vmem.cells
        w.pagefile.ints
  marked-Coherent =
      Coherent-reflag w.vmem.pt.entries p _ stays (used_flags-lt _ small)
        (λ e. sym (used_flags-changed _ small) ∙ e) v.coherent

  cell_lt : (f : ℕ) → ltb f w.vmem.adm.size ≡ true → f * page_size + k < physmem_size
  cell_lt f u = let l = v.coherent.used_lt f u in omega arith

  value_here :
      {f : ℕ}
      → Holds w.vmem.pt.entries w.vmem.pt.framepage p f
      → w.vmem.cells (f * page_size + k) ≡ page_cell w p k
  unfolding page_view
  value_here h = rw (loaded, h.frame_of) refl

  pub read_page-DidRead : Returns (DidRead w p k) (read_page (pos p) k w)
  unfolding read_page calc_index_from_page_offset
  read_page-DidRead =
      let (f, u, h) = v.coherent.resident p p_lt loaded in
      let h' = Holds-reflag w.vmem.pt.entries p _ stays h in
      rw
        (
          count_used-ok p w p_lt,
          entry_at-ok p (with_entries w (marked w p)) p_lt,
          h'.frame_of,
          cell_at-ok (f * page_size + k) (with_entries w (marked w p)) (cell_lt f u),
        )
        (returns (record {
          valid = IsValid-parts (marked w p) w.vmem.cells v marked-Coherent;
          is_value = value_here h;
          same_view =
              λ q j ql jl. view-reflag w.vmem.pt.entries p _ stays w.vmem.cells w.pagefile.ints q j;
          same_sema = refl;
          same_client = refl;
          same_signal = refl;
        }))

  small' : (marked w p p).flags < flags_end
  small' = marked-Coherent.small p p_lt

  stays' : has (set_flag (marked w p p).flags changed) present ≡ has (marked w p p).flags present
  stays' = set-present _ changed small' (λ e. cc)

  is_changed : has (set_flag (marked w p p).flags changed) changed ≡ true
  is_changed = has-set_flag _ changed changed small'

  dirtied-Coherent :
      Coherent
        (λ f. ltb f w.vmem.adm.size)
        (dirtied w p)
        w.vmem.pt.framepage
        w.vmem.cells
        w.pagefile.ints
  dirtied-Coherent =
      Coherent-reflag (marked w p) p _ stays' (set_flag-lt _ changed small')
        (λ e. let e' = is_changed in cc) marked-Coherent

  pub write_page-DidWrite :
      (value : ℤ) → Returns (λ _. DidWrite w p k value) (write_page (pos p) k value w)
  unfolding write_page calc_index_from_page_offset
  write_page-DidWrite value =
      let (f, u, h) = v.coherent.resident p p_lt loaded in
      let h' = Holds-reflag (marked w p) p _ stays' (Holds-reflag w.vmem.pt.entries p _ stays h) in
      let dirty : has (dirtied w p p).flags changed ≡ true =
        ap (λ x. has x.flags changed) (update_self (marked w p) p _) ∙ is_changed in
      rw
        (
          count_used-ok p w p_lt,
          entry_at-ok p (with_entries w (marked w p)) p_lt,
          put_entry-ok p _ (with_entries w (marked w p)) p_lt,
          entry_at-ok p (with_entries w (dirtied w p)) p_lt,
          h'.frame_of,
          put_cell-ok (f * page_size + k) value (with_entries w (dirtied w p)) (cell_lt f u),
        )
        (returns (record {
          valid =
              IsValid-parts (dirtied w p) _ v
                (Coherent-store k value dirtied-Coherent u h' k_lt dirty);
          new_view = λ q j ql jl.
              view-store k value dirtied-Coherent u h' k_lt q j ql jl
              ∙ ap (λ y. if q == p && j == k then value else y)
                  (view-reflag (marked w p) p _ stays' w.vmem.cells w.pagefile.ints q j
                    ∙ view-reflag w.vmem.pt.entries p _ stays w.vmem.cells w.pagefile.ints q j);
          same_sema = refl;
          same_client = refl;
          same_signal = refl;
        }))
