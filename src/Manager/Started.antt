-- ===== src/Manager/Started.antt =====
-- The start of working/mmanage.c establishes the invariant, on whatever the memory held before.
use mathlib.Core.Bool.{false≢true}
use suse_vm.Prelude.{
  le→leb, ℕ, ◌+◌, ◌-◌, ◌/◌, ◌%◌, ◌<◌, ◌≡◌, refl, sym, ◌∙◌, ap, true, false, not, ltb, ℤ, pos, blit,
  [], arith, lt→ltb,
}
use suse_vm.Vmem.Sizes.{page_size, npages, nframes, virtmem_size, void_idx}
use suse_vm.Vmem.Flags.{present, has, has-zero}
use suse_vm.Vmem.State.{PtEntry, World}
use suse_vm.Vmem.Os.{mapped}
use suse_vm.Vmem.Run.{Returns, returns}
use suse_vm.Vmem.Pagefile.{run_length_all}
use suse_vm.Paging.Unload.{blank}
use suse_vm.Paging.Coherent.{Coherent, page_view}
use suse_vm.Manager.Boot.{
  init_pagefile, open_logfile, vmem_init, mapped_init, fill_vmem, is_zero, random_mod,
}
use suse_vm.Manager.Main.{Setup, install_handler, start}
use suse_vm.Manager.Valid.{IsValid, view}

-- Every call that the start makes succeeds.
pub record Succeeds (s : Setup) : Type 0 where
  pub pagefile : s.pagefile_opened ≡ true
  pub logfile : s.logfile_opened ≡ true
  pub opened : is_zero s.os.fd ≡ false
  pub sized : is_zero s.os.truncated ≡ true
  pub at_address : s.os.mapping ≡ mapped
  pub semaphore : is_zero s.os.sem_result ≡ true
  pub usr1 : is_zero s.usr1_installed ≡ true
  pub usr2 : is_zero s.usr2_installed ≡ true
  pub int : is_zero s.int_installed ≡ true

-- The state after the start: valid, nothing loaded, nobody let go, and the virtual memory holds
-- the random ints.
pub record Started (s : Setup) (w : World) : Type 0 where
  pub valid : IsValid w
  pub random : (a : ℕ) → a < virtmem_size → view w a ≡ pos (s.rand a % random_mod)
  pub no_frames : w.vmem.adm.size ≡ 0
  pub no_faults : w.vmem.adm.pf_count ≡ 0
  pub no_posts : w.vmem.adm.sema ≡ 0
  pub empty_log : w.logfile ≡ []

module _ {ℓ} {A : Type ℓ} where
  pub blit_start : (dst src : ℕ → A) (n i : ℕ) → i < n → blit dst 0 src 0 n i ≡ src i
  unfolding blit
  blit_start dst src n i h =
      let e : 0 + (i - 0) ≡ i = omega arith in
      rw (lt→ltb i (0 + n) (omega arith), le→leb 0 i (omega arith), e) refl

module _ (es : ℕ → PtEntry) (p : ℕ) (h : p < npages) where
  abbrev pub emptied : ℕ → PtEntry
  emptied = blit es 0 (λ _. blank) 0 npages

  pub emptied-blank : emptied p ≡ blank
  emptied-blank = blit_start es (λ _. blank) npages p h

  emptied-absent : has (emptied p).flags present ≡ false
  emptied-absent = rw emptied-blank (has-zero present)

-- With no page loaded, table, frames and file agree.
pub Coherent-empty :
    (es : ℕ → PtEntry) (fp cells ints : ℕ → ℤ)
    → Coherent (λ f. ltb f 0) (blit es 0 (λ _. blank) 0 npages) fp cells ints
Coherent-empty es fp cells ints = record {
  used_lt = λ f u. absurd (none_used f u);
  filled = λ f u. absurd (none_used f u);
  resident = λ p l e. let a = emptied-absent es p l in absurd (false≢true (sym a ∙ e));
  clean = λ p f k u. absurd (none_used f u);
  small = λ p l. rw (emptied-blank es p l) (omega arith);
}
  where
    none_used : (f : ℕ) → ltb f 0 ≡ true → ⊥
    none_used f u = ground arith

-- Before a page is loaded the virtual memory is the page file.
pub view-empty :
    (es : ℕ → PtEntry) (cells ints : ℕ → ℤ) (a : ℕ)
    → a < virtmem_size
    → page_view (blit es 0 (λ _. blank) 0 npages) cells ints (a / page_size) (a % page_size)
      ≡ ints a
unfolding page_view
view-empty es cells ints a l =
    rw (emptied-absent es (a / page_size) (omega arith)) (ap ints (omega arith))

-- If every call that it makes succeeds and the medium is sound, the start of the manager
-- establishes the invariant from any memory content: no frame is filled, the counters and the
-- semaphore are 0, the log is empty, and the virtual memory holds the random ints.
pub start-Started :
    (s : Setup) (w : World)
    → Succeeds s
    → ((i : ℕ) → i < virtmem_size → w.pagefile.broken i ≡ false)
    → Returns (λ _. Started s) (start s w)
unfolding start view init_pagefile open_logfile vmem_init mapped_init fill_vmem install_handler
start-Started s w h sound =
    rw
      (
        run_length_all (λ i. not (w.pagefile.broken i)) 0 virtmem_size
            (λ k a b. rw (sound k b) refl),
        h.pagefile,
        h.logfile,
        h.opened,
        h.sized,
        h.at_address,
        h.semaphore,
        h.usr1,
        h.usr2,
        h.int,
      )
      (returns (record {
        valid = record {
          size_le = omega arith;
          next_lt = omega arith;
          coherent = Coherent-empty _ _ _ _;
          unused = λ f a b. blit_start w.vmem.pt.framepage (λ _. void_idx) nframes f b;
          counted = λ l. refl;
          file_length = refl;
          file_sound = sound;
        };
        random = λ a l.
            view-empty w.vmem.pt.entries _ _ a l
            ∙ blit_start (λ _. pos 0) (λ i. pos (s.rand i % random_mod)) virtmem_size a l;
        no_frames = refl;
        no_faults = refl;
        no_posts = refl;
        empty_log = refl;
      }))
