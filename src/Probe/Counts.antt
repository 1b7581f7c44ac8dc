-- ===== src/Probe/Counts.antt =====
-- The counts of probe/ as numbers of reads: they do not overflow in a run that is short enough.
use suse_vm.Prelude.{
  ℕ, ◌+◌, ◌/◌, ◌%◌, ◌^◌, ◌<◌, ◌≤◌, ◌≡◌, refl, ◌∙◌, ap, ◌==◌, if◌then◌else◌, List, [], ◌∷◌, length,
  update, arith, Bool-cases, inl, inr,
}
use suse_vm.Vmem.Sizes.{page_size}
use suse_vm.Vmem.Run.{Returns, mono}
use suse_vm.Flat.{Op, read, write, InRange}
use suse_vm.Manager.Valid.{view}
use suse_vm.Access.Ready.{CanAttach}
use suse_vm.Probe.State.{World, int_min}
use suse_vm.Probe.Valid.{IsValid}
use suse_vm.Probe.Access.{Config}
use suse_vm.Probe.Refine.{run, reads_of, run_counts_reads}

-- the number of reads from page `p`
unfoldable pub reads_from : ℕ → List Op → ℕ
reads_from p [] = 0
reads_from p (read a ∷ ops) = (if a / page_size == p then 1 else 0) + reads_from p ops
reads_from p (write a x ∷ ops) = reads_from p ops

reads_from-le : (p : ℕ) (ops : List Op) → reads_from p ops ≤ length ops
unfolding reads_from length
reads_from-le p [] = omega arith
reads_from-le p (read a ∷ ops) = ground (arith, reads_from-le p ops)
reads_from-le p (write a x ∷ ops) = omega (arith, reads_from-le p ops)

-- Below 2 ^ 31 the bit patterns are the numbers.
reads_of-reads_from :
    (ops : List Op) (n : ℕ → ℕ) (p : ℕ)
    → n p + length ops < int_min
    → reads_of ops n p ≡ n p + reads_from p ops
unfolding reads_of reads_from length
reads_of-reads_from [] n p h = omega arith
reads_of-reads_from (read a ∷ ops) n p h =
    let q : ℕ = a / page_size in
    let n' : ℕ → ℕ = update n q ((n q + 1) % 2 ^ 32) in
    elim (Bool-cases (q == p)) [
      | inl same ↦
          let e : q ≡ p = ground arith in
          let here : n' p ≡ n p + 1 = unfold update in ground (arith, ap n e) in
          rw same (reads_of-reads_from ops n' p (omega arith) ∙ omega arith)
      | inr other ↦
          let there : n' p ≡ n p = unfold update in ground arith in
          rw other (reads_of-reads_from ops n' p (omega arith) ∙ omega arith)
    ]
reads_of-reads_from (write a x ∷ ops) n p h = reads_of-reads_from ops n p (omega arith)

-- In a run of accesses below 1024 from a valid state with the semaphore up and a client that is
-- attached or can attach, no count of a page overflows, if it and the number of accesses stay below
-- 2 ^ 31 together: it is then the count before and the number of reads from the page, and not negative.
pub counts-InRange :
    (c : Config) (ops : List Op) (p : ℕ) (w : World)
    → IsValid w
    → 0 < w.base.vmem.adm.sema
    → CanAttach c.os w.base
    → InRange ops
    → w.counts p + length ops < int_min
    → Returns
        (λ _ w'. (w'.counts p ≡ w.counts p + reads_from p ops) × (w'.counts p < int_min))
        (run c ops w)
counts-InRange c ops p w v up can r short =
    mono (run_counts_reads c ops (view w.base) v up can (λ b l. refl) r) λ xs w' q.
      let e : w'.counts p ≡ w.counts p + reads_from p ops =
        ap (λ n. n p) (q.4) ∙ reads_of-reads_from ops w.counts p short in
      (e, omega (arith, e, reads_from-le p ops))
