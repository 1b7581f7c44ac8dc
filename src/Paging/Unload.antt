-- ===== src/Paging/Unload.antt =====
-- The removal of a page from its frame: `store_page` and `update_unload` of working/mmanage.c.
use suse_vm.Prelude.{
  ℕ, ◌+◌, ◌*◌, ◌<◌, ◌≡◌, ◌≢◌, refl, sym, ◌∙◌, ap, Bool, true, false, if◌then◌else◌, ◌==◌, ℤ, arith,
  update, update_self, update_ne, blit, blit_inside, blit_other, Bool-cases, inl, inr,
}
use suse_vm.Vmem.Sizes.{page_size, npages, void_idx}
use suse_vm.Vmem.Flags.{present, changed, has, flags_end, has-zero}
use suse_vm.Vmem.State.{PtEntry}
use suse_vm.Paging.Coherent.{Holds, Coherent, page_view, Holds-page, Holds-frame}

abbrev pub blank : PtEntry
blank = record { flags = 0; frame = void_idx }

-- the file after `store_page` of page `o` that lies in frame `f`
unfoldable pub stored : (ℕ → PtEntry) → (cells ints : ℕ → ℤ) → (o f : ℕ) → ℕ → ℤ
stored es cells ints o f =
    if has (es o).flags changed
    then blit ints (o * page_size) cells (f * page_size) page_size
    else ints

module _ {used : ℕ → Bool} {es : ℕ → PtEntry} {fp cells ints : ℕ → ℤ} {o f : ℕ}
    (c : Coherent used es fp cells ints) (u : used f ≡ true) (h : Holds es fp o f) where
  -- The file then holds what the frame holds.
  stored-inside :
      (k : ℕ)
      → k < page_size
      → stored es cells ints o f (o * page_size + k) ≡ cells (f * page_size + k)
  unfolding stored
  stored-inside k l = elim (Bool-cases (has (es o).flags changed)) [
    | inl dirty ↦ rw dirty (blit_inside ints (o * page_size) cells (f * page_size) page_size k l)
    | inr same ↦ rw same (sym (c.clean o f k u h same l))
  ]

  stored-other :
      (q k : ℕ)
      → q ≢ o
      → k < page_size
      → stored es cells ints o f (q * page_size + k) ≡ ints (q * page_size + k)
  unfolding stored
  stored-other q k ne l = elim (Bool-cases (has (es o).flags changed)) [
    | inl dirty ↦ rw dirty (blit_other ints o cells (f * page_size) q k ne l)
    | inr same ↦ rw same refl
  ]

  Holds-drop : {q g : ℕ} → q ≢ o → Holds es fp q g → Holds (update es o blank) fp q g
  Holds-drop {q} ne hq =
      let e = update_ne es o blank q ne in
      record {
        page_of = hq.page_of;
        frame_of = ap (λ x. x.frame) e ∙ hq.frame_of;
        loaded = ap (λ x. has x.flags present) e ∙ hq.loaded;
        page_lt = hq.page_lt;
      }

  dropped : {q : ℕ} → has (update es o blank q).flags present ≡ true → q ≢ o
  unfolding update
  dropped {q} e same = ground (arith, has-zero present)

  Holds-keep : {q g : ℕ} → Holds (update es o blank) fp q g → Holds es fp q g
  Holds-keep {q} hq =
      let e = update_ne es o blank q (dropped hq.loaded) in
      record {
        page_of = hq.page_of;
        frame_of = ap (λ x. x.frame) (sym e) ∙ hq.frame_of;
        loaded = ap (λ x. has x.flags present) (sym e) ∙ hq.loaded;
        page_lt = hq.page_lt;
      }

  pub Coherent-unload :
      Coherent (update used f false) (update es o blank) fp cells (stored es cells ints o f)
  Coherent-unload = record {
    used_lt = λ g w. c.used_lt g (still g w);
    filled = λ g w.
        let (q, hq) = c.filled g (still g w) in
        (q, Holds-drop (λ e. other g w (Holds-frame hq h e)) hq);
    resident = λ q l e.
        let ne = dropped e in
        let (g, w, hq) =
          c.resident q l (ap (λ x. has x.flags present) (sym (update_ne es o blank q ne)) ∙ e) in
        (g, update_ne used f false g (λ e'. ne (Holds-page hq h e')) ∙ w, Holds-drop ne hq);
    clean = λ q g k w hq e l.
        let ne = dropped hq.loaded in
        c.clean q g k (still g w) (Holds-keep hq)
          (ap (λ x. has x.flags changed) (sym (update_ne es o blank q ne)) ∙ e) l
        ∙ sym (stored-other q k ne l);
    small = λ q l. small' q l;
  }
    where
      still : (g : ℕ) → update used f false g ≡ true → used g ≡ true
      still g w = unfold update in ground arith

      other : (g : ℕ) → update used f false g ≡ true → g ≢ f
      other g w e = unfold update in ground arith

      small' : (q : ℕ) → q < npages → (update es o blank q).flags < flags_end
      small' q l = unfold update in ground (arith, c.small q l)

  -- The virtual memory stays what it was.
  pub view-unload :
      (q k : ℕ)
      → k < page_size
      → page_view (update es o blank) cells (stored es cells ints o f) q k
        ≡ page_view es cells ints q k
  unfolding page_view
  view-unload q k l = elim (Bool-cases (q == o)) [
    | inl e ↦
        let qo : q ≡ o = ground arith in
        rw (qo, update_self, has-zero, h.loaded, h.frame_of) (stored-inside k l)
    | inr ne ↦
        let qo : q ≢ o = ground arith in rw (update_ne es o blank q qo, stored-other q k qo l) refl
  ]
