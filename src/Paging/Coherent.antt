-- ===== src/Paging/Coherent.antt =====
-- The agreement of page table, frame table, frames and page file, and the virtual memory that they
-- stand for. It is stated for the frames that a test `used` picks, so that it also holds between
-- the removal of one page and the load of the next.
use suse_vm.Prelude.{
  ℕ, ◌+◌, ◌*◌, ◌<◌, ◌≡◌, sym, ◌∙◌, ap, Bool, true, false, if◌then◌else◌, ℤ, pos, pos_part,
  pos-injective, fun_ext,
}
use mathlib.Core.Path.{subst}
use suse_vm.Vmem.Sizes.{page_size, npages, nframes}
use suse_vm.Vmem.Flags.{present, changed, has, flags_end}
use suse_vm.Vmem.State.{PtEntry}

-- page `p` lies in frame `f`
pub record Holds (es : ℕ → PtEntry) (fp : ℕ → ℤ) (p f : ℕ) : Type 0 where
  pub page_of : fp f ≡ pos p
  pub frame_of : (es p).frame ≡ pos f
  pub loaded : has (es p).flags present ≡ true
  pub page_lt : p < npages

pub record Coherent (used : ℕ → Bool) (es : ℕ → PtEntry) (fp cells ints : ℕ → ℤ) : Type 0 where
  pub used_lt : (f : ℕ) → used f ≡ true → f < nframes
  pub filled : (f : ℕ) → used f ≡ true → (p : ℕ) × Holds es fp p f
  pub resident :
      (p : ℕ)
      → p < npages
      → has (es p).flags present ≡ true
      → (f : ℕ) × (used f ≡ true) × Holds es fp p f
  pub clean :
      (p f k : ℕ)
      → used f ≡ true
      → Holds es fp p f
      → has (es p).flags changed ≡ false
      → k < page_size
      → cells (f * page_size + k) ≡ ints (p * page_size + k)
  pub small : (p : ℕ) → p < npages → (es p).flags < flags_end

-- the int at offset `k` of page `p`: in its frame if the page is loaded, else in the file
unfoldable pub page_view : (ℕ → PtEntry) → (cells ints : ℕ → ℤ) → (p k : ℕ) → ℤ
page_view es cells ints p k =
    if has (es p).flags present
    then cells (pos_part (es p).frame * page_size + k)
    else ints (p * page_size + k)

-- A frame holds one page, and a page lies in one frame.
pub Holds-page :
    {es : ℕ → PtEntry} {fp : ℕ → ℤ} {p q f g : ℕ}
    → Holds es fp p f
    → Holds es fp q g
    → f ≡ g
    → p ≡ q
Holds-page {fp = fp} h k e = pos-injective (sym h.page_of ∙ ap fp e ∙ k.page_of)

pub Holds-frame :
    {es : ℕ → PtEntry} {fp : ℕ → ℤ} {p q f g : ℕ}
    → Holds es fp p f
    → Holds es fp q g
    → p ≡ q
    → f ≡ g
Holds-frame {es = es} h k e = pos-injective (sym h.frame_of ∙ ap (λ p. (es p).frame) e ∙ k.frame_of)

pub Coherent-used :
    {used other : ℕ → Bool} {es : ℕ → PtEntry} {fp cells ints : ℕ → ℤ}
    → ((f : ℕ) → used f ≡ other f)
    → Coherent used es fp cells ints
    → Coherent other es fp cells ints
Coherent-used {es = es} {fp = fp} {cells = cells} {ints = ints} h =
    subst (λ u. Coherent u es fp cells ints) (fun_ext h)
