-- ===== src/Paging/Load.antt =====
-- The load of a page into an empty frame: `update_load` and `fetch_page` of working/mmanage.c.
use suse_vm.Prelude.{
  ℕ, ◌*◌, ◌<◌, ◌≡◌, ◌≢◌, refl, sym, ◌∙◌, ap, Bool, true, false, ◌==◌, ℤ, pos, arith, update,
  update_self, update_ne, blit, blit_inside, blit_other, Bool-cases, inl, inr, ◌⊎◌,
}
use suse_vm.Vmem.Sizes.{page_size, npages, nframes}
use suse_vm.Vmem.Flags.{present, changed, has, set_flag, flags_end, has-set_flag, set_flag-lt}
use suse_vm.Vmem.State.{PtEntry}
use suse_vm.Paging.Coherent.{Holds, Coherent, page_view, Holds-page, Holds-frame}

-- the table after `update_load` of page `r` into frame `f`
abbrev pub load_entry : (ℕ → PtEntry) → (r f : ℕ) → ℕ → PtEntry
load_entry es r f = update es r (record { flags = set_flag (es r).flags present; frame = pos f })

-- the frames after `fetch_page`
abbrev pub fetched : (cells ints : ℕ → ℤ) → (r f : ℕ) → ℕ → ℤ
fetched cells ints r f = blit cells (f * page_size) ints (r * page_size) page_size

module _ {used : ℕ → Bool} {es : ℕ → PtEntry} {fp cells ints : ℕ → ℤ} {r f : ℕ}
    (c : Coherent used es fp cells ints) (free : used f ≡ false) (f_lt : f < nframes)
    (r_lt : r < npages) (absent : has (es r).flags present ≡ false) where
  used_ne : (g : ℕ) → used g ≡ true → g ≢ f
  used_ne g w e = let e' : used g ≡ false = rw e free in cc

  loaded_ne : {q g : ℕ} → Holds es fp q g → q ≢ r
  loaded_ne {q} hq e =
      let a : has (es q).flags present ≡ false = rw e absent in let b = hq.loaded in cc

  pub Holds-load : Holds (load_entry es r f) (update fp f (pos r)) r f
  Holds-load = record {
    page_of = update_self fp f (pos r);
    frame_of = ap (λ x. x.frame) self;
    loaded =
        ap (λ x. has x.flags present) self
        ∙ has-set_flag (es r).flags present present (c.small r r_lt);
    page_lt = r_lt;
  }
    where
      self : load_entry es r f r ≡ record { flags = set_flag (es r).flags present; frame = pos f }
      self = update_self es r (record { flags = set_flag (es r).flags present; frame = pos f })

  at_other : (q : ℕ) → q ≢ r → load_entry es r f q ≡ es q
  at_other q ne =
      update_ne es r (record { flags = set_flag (es r).flags present; frame = pos f }) q ne

  Holds-other :
      {q g : ℕ}
      → used g ≡ true
      → Holds es fp q g
      → Holds (load_entry es r f) (update fp f (pos r)) q g
  Holds-other {q} {g} w hq =
      let e = at_other q (loaded_ne hq) in
      record {
        page_of = update_ne fp f (pos r) g (used_ne g w) ∙ hq.page_of;
        frame_of = ap (λ x. x.frame) e ∙ hq.frame_of;
        loaded = ap (λ x. has x.flags present) e ∙ hq.loaded;
        page_lt = hq.page_lt;
      }

  Holds-before :
      {q g : ℕ}
      → q ≢ r
      → g ≢ f
      → Holds (load_entry es r f) (update fp f (pos r)) q g
      → Holds es fp q g
  Holds-before {q} {g} ne gf hq =
      let e = sym (at_other q ne) in
      record {
        page_of = sym (update_ne fp f (pos r) g gf) ∙ hq.page_of;
        frame_of = ap (λ x. x.frame) e ∙ hq.frame_of;
        loaded = ap (λ x. has x.flags present) e ∙ hq.loaded;
        page_lt = hq.page_lt;
      }

  used_cases : (g : ℕ) → update used f true g ≡ true → (g ≡ f) ⊎ (used g ≡ true)
  unfolding update
  used_cases g w = ground arith

  used_again : (g : ℕ) → used g ≡ true → update used f true g ≡ true
  unfolding update
  used_again g w = ground arith

  small_load : (q : ℕ) → q < npages → (load_entry es r f q).flags < flags_end
  unfolding update
  small_load q l = ground (arith, c.small q l, set_flag-lt (es r).flags present (c.small r r_lt))

  pub Coherent-load :
      Coherent
        (update used f true)
        (load_entry es r f)
        (update fp f (pos r))
        (fetched cells ints r f)
        ints
  Coherent-load = record {
    used_lt = λ g w. elim (used_cases g w) [ inl e ↦ rw e f_lt | inr w' ↦ c.used_lt g w' ];
    filled = λ g w. elim (used_cases g w) [
      | inl e ↦ (r, rw e Holds-load)
      | inr w' ↦ let (q, hq) = c.filled g w' in (q, Holds-other w' hq)
    ];
    resident = λ q l e. elim (Bool-cases (q == r)) [
      | inl same ↦ let qr : q ≡ r = ground arith in (f, update_self used f true, rw qr Holds-load)
      | inr differ ↦
          let qr : q ≢ r = ground arith in
          let (g, w, hq) =
            c.resident q l (ap (λ x. has x.flags present) (sym (at_other q qr)) ∙ e) in
          (g, used_again g w, Holds-other w hq)
    ];
    clean = λ q g k w hq e l. elim (Bool-cases (q == r)) [
      | inl same ↦
          let qr : q ≡ r = ground arith in
          let gf : g ≡ f = Holds-frame hq Holds-load qr in
          rw (qr, gf) (blit_inside cells (f * page_size) ints (r * page_size) page_size k l)
      | inr differ ↦
          let qr : q ≢ r = ground arith in
          let gf : g ≢ f = λ e'. qr (Holds-page hq Holds-load e') in
          blit_other cells f ints (r * page_size) g k gf l
          ∙ c.clean q g k (sym (update_ne used f true g gf) ∙ w) (Holds-before qr gf hq)
              (ap (λ x. has x.flags changed) (sym (at_other q qr)) ∙ e) l
    ];
    small = λ q l. small_load q l;
  }

  -- The virtual memory stays what it was.
  pub view-load :
      (q k : ℕ)
      → q < npages
      → k < page_size
      → page_view (load_entry es r f) (fetched cells ints r f) ints q k
        ≡ page_view es cells ints q k
  unfolding page_view
  view-load q k ql l = elim (Bool-cases (q == r)) [
    | inl e ↦
        let qr : q ≡ r = ground arith in
        rw (qr, Holds-load.loaded, Holds-load.frame_of, absent)
          (blit_inside cells (f * page_size) ints (r * page_size) page_size k l)
    | inr ne ↦
        let qr : q ≢ r = ground arith in
        rw (at_other q qr) (elim (Bool-cases (has (es q).flags present)) [
          | inl here ↦
              let (g, w, hq) = c.resident q ql here in
              rw (here, hq.frame_of) (blit_other cells f ints (r * page_size) g k (used_ne g w) l)
          | inr away ↦ rw away refl
        ])
  ]
