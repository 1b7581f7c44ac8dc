-- ===== src/Probe/Touch.antt =====
-- The access itself in probe/vmaccess.c, once the page is loaded: `read_page` and `write_page`.
use suse_vm.Prelude.{
  ℕ, ◌+◌, ◌*◌, ◌%◌, ◌^◌, ◌<◌, ◌≡◌, refl, sym, ◌∙◌, ap, true, ◌&&◌, ◌==◌, ltb, lt→ltb, if◌then◌else◌,
  ℤ, update, update_self, arith,
}
use suse_vm.Vmem.Sizes.{page_size, npages, physmem_size}
use suse_vm.Vmem.Flags.{
  Flag, present, changed, usedbit1, has, set_flag, flags_end, plain_end, has-set_flag, set_flag-lt,
  set_flag-plain,
}
use suse_vm.Vmem.State.{PtEntry}
use suse_vm.Vmem.Run.{ok, Returns, returns}
use suse_vm.Vmem.Cells
use suse_vm.Vmem.Cells.{with_entries}
use suse_vm.Paging.Coherent.{Holds, Coherent, page_view}
use suse_vm.Paging.Touch.{
  reflag, Holds-reflag, Coherent-reflag, view-reflag, Coherent-store, view-store,
}
use suse_vm.Manager.Valid.{page_cell}
use suse_vm.Access.Cells.{set-present, set-changed}
use suse_vm.Probe.State.{World}
use suse_vm.Probe.Cells.{based_on, entry_at-ok, put_entry-ok, raise_count}
use suse_vm.Probe.Valid.{IsValid}
use suse_vm.Probe.Served.{IsPlain}
use suse_vm.Probe.Access.{Config, raise_flag, read_page, write_page}
use suse_vm.Probe.Ready.{IsValid-changed}

-- the counts after a read of page `p`
abbrev pub counted_read : World → ℕ → ℕ → ℕ
counted_read w p = update w.counts p ((w.counts p + 1) % 2 ^ 32)

-- the table after a flag of page `p` was raised
abbrev raised : (ℕ → PtEntry) → Flag → ℕ → ℕ → PtEntry
raised es g p = reflag es p (set_flag (es p).flags g)

raise_count-ok :
    (p : ℕ) (w : World)
    → p < npages
    → raise_count p w ≡ ok tt (record w { counts = counted_read w p })
unfolding raise_count
raise_count-ok p w h = rw (lt→ltb p npages h) refl

raise_flag-ok :
    (c : Config) (g : Flag) (p : ℕ) (w : World)
    → p < npages
    → raise_flag c g p w
      ≡ ok tt (based_on w (with_entries w.base (raised w.base.vmem.pt.entries g p)))
unfolding raise_flag
raise_flag-ok c g p w h = rw (entry_at-ok c.abi p w h, put_entry-ok c.abi p _ w h) refl

-- What a read leaves, and what it returns: one read more is counted for its page.
pub record DidRead (w : World) (p k : ℕ) (value : ℤ) (w' : World) : Type 0 where
  pub valid : IsValid w'
  pub is_value : value ≡ page_cell w.base p k
  pub same_view :
      (q j : ℕ) → q < npages → j < page_size → page_cell w'.base q j ≡ page_cell w.base q j
  pub same_sema : w'.base.vmem.adm.sema ≡ w.base.vmem.adm.sema
  pub same_client : w'.base.attached ≡ w.base.attached
  pub counted : w'.counts ≡ counted_read w p

-- What a write leaves: no count changes.
pub record DidWrite (w : World) (p k : ℕ) (value : ℤ) (w' : World) : Type 0 where
  pub valid : IsValid w'
  pub new_view :
      (q j : ℕ)
      → q < npages
      → j < page_size
      → page_cell w'.base q j ≡ (if q == p && j == k then value else page_cell w.base q j)
  pub same_sema : w'.base.vmem.adm.sema ≡ w.base.vmem.adm.sema
  pub same_client : w'.base.attached ≡ w.base.attached
  pub same_counts : w'.counts ≡ w.counts

IsPlain-raised :
    (es : ℕ → PtEntry) (g : Flag) (p : ℕ)
    → set_flag (es p).flags g < plain_end
    → IsPlain es
    → IsPlain (raised es g p)
unfolding update
IsPlain-raised es g p small plain q l = ground (arith, small, plain q l)

module _ {w : World} {p k : ℕ} (v : IsValid w) (p_lt : p < npages) (k_lt : k < page_size)
    (loaded : has (w.base.vmem.pt.entries p).flags present ≡ true) where
  abbrev table : ℕ → PtEntry
  table = w.base.vmem.pt.entries

  abbrev used : ℕ → PtEntry
  used = raised table usedbit1 p

  abbrev dirtied : ℕ → PtEntry
  dirtied = raised used changed p

  small : (table p).flags < flags_end
  small = v.shared.coherent.small p p_lt

  stays : has (set_flag (table p).flags usedbit1) present ≡ has (table p).flags present
  stays = set-present _ usedbit1 small (λ e. cc)

  used-Coherent :
      Coherent
        (λ f. ltb f w.base.vmem.adm.size)
        used
        w.base.vmem.pt.framepage
        w.base.vmem.cells
        w.base.pagefile.ints
  used-Coherent =
      Coherent-reflag table p _ stays (set_flag-lt _ usedbit1 small)
        (λ e. sym (set-changed _ usedbit1 small (λ e'. cc)) ∙ e) v.shared.coherent

  used-IsPlain : IsPlain used
  used-IsPlain = IsPlain-raised table usedbit1 p (set_flag-plain _ (v.plain p p_lt)).2 v.plain

  cell_lt : (f : ℕ) → ltb f w.base.vmem.adm.size ≡ true → f * page_size + k < physmem_size
  cell_lt f u = let l = v.shared.coherent.used_lt f u in omega arith

  value_here :
      {f : ℕ}
      → Holds table w.base.vmem.pt.framepage p f
      → w.base.vmem.cells (f * page_size + k) ≡ page_cell w.base p k
  unfolding page_view
  value_here h = rw (loaded, h.frame_of) refl

  pub read_page-DidRead : (c : Config) → Returns (DidRead w p k) (read_page c p k w)
  unfolding read_page
  read_page-DidRead c =
      let (f, u, h) = v.shared.coherent.resident p p_lt loaded in
      let h' = Holds-reflag table p _ stays h in
      let w1 = record w { counts = counted_read w p } in
      let w2 = based_on w1 (with_entries w.base used) in
      rw
        (
          raise_count-ok p w p_lt,
          raise_flag-ok c usedbit1 p w1 p_lt,
          entry_at-ok c.abi p w2 p_lt,
          h'.frame_of,
          Cells.cell_at-ok (f * page_size + k) w2.base (cell_lt f u),
        )
        (returns (record {
          valid =
              IsValid-changed w.base.vmem.adm.req_pageno w.base.vmem.adm.sema w.base.attached
                (counted_read w p) v used-Coherent used-IsPlain;
          is_value = value_here h;
          same_view =
              λ q j ql jl. view-reflag table p _ stays w.base.vmem.cells w.base.pagefile.ints q j;
          same_sema = refl;
          same_client = refl;
          counted = refl;
        }))

  small' : (used p).flags < flags_end
  small' = used-Coherent.small p p_lt

  stays' : has (set_flag (used p).flags changed) present ≡ has (used p).flags present
  stays' = set-present _ changed small' (λ e. cc)

  is_changed : has (set_flag (used p).flags changed) changed ≡ true
  is_changed = has-set_flag _ changed changed small'

  dirtied-Coherent :
      Coherent
        (λ f. ltb f w.base.vmem.adm.size)
        dirtied
        w.base.vmem.pt.framepage
        w.base.vmem.cells
        w.base.pagefile.ints
  dirtied-Coherent =
      Coherent-reflag used p _ stays' (set_flag-lt _ changed small')
        (λ e. let e' = is_changed in cc) used-Coherent

  dirtied-IsPlain : IsPlain dirtied
  dirtied-IsPlain =
      IsPlain-raised used changed p (set_flag-plain _ (used-IsPlain p p_lt)).1 used-IsPlain

  pub write_page-DidWrite :
      (c : Config) (value : ℤ) → Returns (λ _. DidWrite w p k value) (write_page c p k value w)
  unfolding write_page
  write_page-DidWrite c value =
      let (f, u, h) = v.shared.coherent.resident p p_lt loaded in
      let h' = Holds-reflag used p _ stays' (Holds-reflag table p _ stays h) in
      let dirty : has (dirtied p).flags changed ≡ true =
        ap (λ x. has x.flags changed) (update_self used p _) ∙ is_changed in
      let cells = update w.base.vmem.cells (f * page_size + k) value in
      let w1 = based_on w (Cells.with_cells w.base cells) in
      let w2 = based_on w1 (with_entries w1.base used) in
      rw
        (
          entry_at-ok c.abi p w p_lt,
          h.frame_of,
          Cells.put_cell-ok (f * page_size + k) value w.base (cell_lt f u),
          raise_flag-ok c usedbit1 p w1 p_lt,
          raise_flag-ok c changed p w2 p_lt,
        )
        (returns (record {
          valid =
              IsValid-changed w.base.vmem.adm.req_pageno w.base.vmem.adm.sema w.base.attached
                w.counts v (Coherent-store k value dirtied-Coherent u h' k_lt dirty)
                dirtied-IsPlain;
          new_view = λ q j ql jl.
              view-store k value dirtied-Coherent u h' k_lt q j ql jl
              ∙ ap (λ y. if q == p && j == k then value else y)
                  (view-reflag used p _ stays' w.base.vmem.cells w.base.pagefile.ints q j
                    ∙ view-reflag table p _ stays w.base.vmem.cells w.base.pagefile.ints q j);
          same_sema = refl;
          same_client = refl;
          same_counts = refl;
        }))
