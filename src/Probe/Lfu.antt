-- ===== src/Probe/Lfu.antt =====
-- The frame that LFU of probe/mmanage.c chooses.
use suse_vm.Prelude.{
  ℕ, zero, suc, ◌+◌, ◌<◌, ◌≤◌, ◌≡◌, ◌≢◌, refl, sym, ◌∙◌, ap, lt→ltb, ◌==◌, pos, pos_part,
  Bool-cases, inl, inr, arith,
}
use suse_vm.Vmem.Sizes.{nframes}
use suse_vm.Vmem.Run.{ok, Returns, returns, bind}
use suse_vm.Manager.Valid
use suse_vm.Manager.Valid.{Reflagged-refl}
use suse_vm.Probe.State.{Abi, World, rank, less_int}
use suse_vm.Probe.Valid.{IsValid, IsValid-full}
use suse_vm.Probe.Cells.{count_at-ok, framepage_at-ok}
use suse_vm.Probe.Replace.{frame_count, lfu_loop, find_remove_lfu}

-- the member `count` of the page in frame `f`
abbrev pub page_count : World → ℕ → ℕ
page_count w f = w.counts (pos_part (w.base.vmem.pt.framepage f))

-- The page in frame `f` was read least often, and it is the first such frame.
pub record IsLeast (w : World) (f : ℕ) : Type 0 where
  pub frame_lt : f < nframes
  pub least : (g : ℕ) → g < nframes → rank (page_count w f) ≤ rank (page_count w g)
  pub first : (g : ℕ) → g < f → rank (page_count w f) < rank (page_count w g)

module _ (abi : Abi) {w : World} (v : Valid.IsValid w.base)
    (full : w.base.vmem.adm.size ≡ nframes) where
  frame_count-ok : (f : ℕ) → f < nframes → frame_count abi f w ≡ ok (page_count w f) w
  unfolding frame_count
  frame_count-ok f lt =
      let (p, h) = v.coherent.filled f (rw full (lt→ltb f nframes lt)) in
      rw (framepage_at-ok f w lt, h.page_of)
        (count_at-ok abi p w h.page_lt ∙ ap (λ z. ok (w.counts (pos_part z)) w) (sym h.page_of))

  -- The loop keeps the first frame of a least count.
  lfu_loop-IsLeast :
      (left i min : ℕ)
      → i + left ≡ nframes
      → min < nframes
      → ((g : ℕ) → g < i → rank (page_count w min) ≤ rank (page_count w g))
      → ((g : ℕ) → g < min → rank (page_count w min) < rank (page_count w g))
      → Returns (λ m w'. (w' ≡ w) × IsLeast w m) (lfu_loop abi left i min w)
  unfolding lfu_loop
  lfu_loop-IsLeast zero i min all lt least first =
      returns (refl, record { frame_lt = lt; least = λ g l. least g (omega arith); first = first })
  lfu_loop-IsLeast (suc left) i min all lt least first =
      rw (frame_count-ok i (omega arith), frame_count-ok min lt)
        (elim (Bool-cases (less_int (page_count w i) (page_count w min))) [
          | inl less ↦
              let l : rank (page_count w i) < rank (page_count w min) = ground arith in
              rw less (
                lfu_loop-IsLeast left (suc i) i (omega arith) (omega arith)
                  (λ g gl. elim (Bool-cases (g == i)) [
                    | inl e ↦ let gi : g ≡ i = ground arith in rw gi (omega arith)
                    | inr ne ↦
                        let gi : g ≢ i = ground arith in omega (arith, l, least g (omega arith))
                  ])
                  (λ g gl. omega (arith, l, least g gl)))
          | inr more ↦
              let l : rank (page_count w min) ≤ rank (page_count w i) = ground arith in
              rw more (
                lfu_loop-IsLeast left (suc i) min (omega arith) lt
                  (λ g gl. elim (Bool-cases (g == i)) [
                    | inl e ↦ let gi : g ≡ i = ground arith in rw gi l
                    | inr ne ↦ let gi : g ≢ i = ground arith in least g (omega arith)
                  ])
                  first)
        ])

  pub lfu-IsLeast :
      Returns (λ z w'. (w' ≡ w) × (f : ℕ) × (z ≡ pos f) × IsLeast w f) (find_remove_lfu abi w)
  unfolding find_remove_lfu
  lfu-IsLeast =
      bind
        (lfu_loop-IsLeast nframes 0 0 (omega arith) (omega arith) (λ g l. absurd (omega arith))
          (λ g l. absurd (omega arith)))
        (λ m w' c. returns (c.0, m, refl, c.1))

-- With all frames filled, from a valid state, `find_remove_lfu` returns the first of the frames whose
-- pages were read least often, by their counts as ints, and changes nothing.
pub find_remove_lfu-IsLeast :
    (abi : Abi) (w : World)
    → IsValid w
    → nframes ≤ w.base.vmem.adm.size
    → Returns (λ z w'. (w' ≡ w) × (f : ℕ) × (z ≡ pos f) × IsLeast w f) (find_remove_lfu abi w)
find_remove_lfu-IsLeast abi w v full =
    lfu-IsLeast abi (IsValid-full v full) (omega (arith, v.shared.size_le))
