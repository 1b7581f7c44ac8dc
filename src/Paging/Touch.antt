-- ===== src/Paging/Touch.antt =====
-- Changes that leave every page where it is: flags of one entry, and an int of a loaded page.
use suse_vm.Prelude.{
  ℕ, ◌+◌, ◌*◌, ◌<◌, ◌≡◌, refl, sym, ◌∙◌, Bool, true, false, if◌then◌else◌, ◌==◌, ◌&&◌, ℤ, arith,
  update, update_ne, Bool-cases, inl, inr,
}
use suse_vm.Vmem.Sizes.{page_size, npages}
use suse_vm.Vmem.Flags.{present, changed, has, flags_end}
use suse_vm.Vmem.State.{PtEntry}
use suse_vm.Paging.Coherent.{Holds, Coherent, page_view, Holds-page, Holds-frame}

module _ (es : ℕ → PtEntry) (p : ℕ) (fl : ℕ) where
  -- the table after `entries[p].flags = fl`
  abbrev pub reflag : ℕ → PtEntry
  reflag = update es p (record (es p) { flags = fl })

  module _ (stays : has fl present ≡ has (es p).flags present) where
    pub reflag-frame : (q : ℕ) → (reflag q).frame ≡ (es q).frame
    unfolding update
    reflag-frame q = ground arith

    pub reflag-present : (q : ℕ) → has (reflag q).flags present ≡ has (es q).flags present
    unfolding update
    reflag-present q = ground arith

    reflag-changed :
        (has fl changed ≡ false → has (es p).flags changed ≡ false)
        → (q : ℕ) → has (reflag q).flags changed ≡ false
        → has (es q).flags changed ≡ false
    unfolding update
    reflag-changed kept q h = ground (arith, kept)

    module _ {fp : ℕ → ℤ} where
      pub Holds-reflag : {q f : ℕ} → Holds es fp q f → Holds reflag fp q f
      Holds-reflag {q} h = record {
        page_of = h.page_of;
        frame_of = reflag-frame q ∙ h.frame_of;
        loaded = reflag-present q ∙ h.loaded;
        page_lt = h.page_lt;
      }

      Holds-unflag : {q f : ℕ} → Holds reflag fp q f → Holds es fp q f
      Holds-unflag {q} h = record {
        page_of = h.page_of;
        frame_of = sym (reflag-frame q) ∙ h.frame_of;
        loaded = sym (reflag-present q) ∙ h.loaded;
        page_lt = h.page_lt;
      }

      pub Coherent-reflag :
          {used : ℕ → Bool} {cells ints : ℕ → ℤ}
          → fl < flags_end
          → (has fl changed ≡ false → has (es p).flags changed ≡ false)
          → Coherent used es fp cells ints
          → Coherent used reflag fp cells ints
      unfolding update
      Coherent-reflag lt kept c = record {
        used_lt = c.used_lt;
        filled = λ f u. let (q, h) = c.filled f u in (q, Holds-reflag h);
        resident = λ q l e.
            let (f, u, h) = c.resident q l (sym (reflag-present q) ∙ e) in (f, u, Holds-reflag h);
        clean = λ q f k u h e l. c.clean q f k u (Holds-unflag h) (reflag-changed kept q e) l;
        small = λ q l. ground (arith, c.small q l);
      }

    pub view-reflag :
        (cells ints : ℕ → ℤ) (q k : ℕ)
        → page_view reflag cells ints q k ≡ page_view es cells ints q k
    unfolding page_view
    view-reflag cells ints q k = rw (reflag-present q, reflag-frame q) refl

-- A store to offset `k` of a page that is loaded and marked as changed.
module _ {used : ℕ → Bool} {es : ℕ → PtEntry} {fp cells ints : ℕ → ℤ} {p f : ℕ} (k : ℕ) (v : ℤ)
    (c : Coherent used es fp cells ints) (u : used f ≡ true) (h : Holds es fp p f)
    (k_lt : k < page_size) where
  pub Coherent-store :
      has (es p).flags changed ≡ true
      → Coherent used es fp (update cells (f * page_size + k) v) ints
  Coherent-store marked = record {
    used_lt = c.used_lt;
    filled = c.filled;
    resident = c.resident;
    clean = λ q g j w hq e l.
        update_ne cells (f * page_size + k) v (g * page_size + j) (λ same.
          let fg : f ≡ g = omega arith in
          let pq = Holds-page h hq fg in let e' : has (es p).flags changed ≡ false = rw pq e in cc)
        ∙ c.clean q g j w hq e l;
    small = c.small;
  }

  -- The virtual memory changes at that int, and nowhere else.
  pub view-store :
      (q j : ℕ)
      → q < npages
      → j < page_size
      → page_view es (update cells (f * page_size + k) v) ints q j
        ≡ (if q == p && j == k then v else page_view es cells ints q j)
  unfolding page_view update
  view-store q j ql jl = elim (Bool-cases (has (es q).flags present)) [
    | inr away ↦ ground (arith, away, h.loaded)
    | inl here ↦
        let (g, w, hq) = c.resident q ql here in
        rw (here, hq.frame_of) (ground (arith, Holds-page h hq, Holds-frame hq h))
  ]
