-- ===== src/Processes/Clash.antt =====
-- Two clients: `req_pageno` of the one overwrites that of the other.
use mathlib.Core.Bool.{false≢true}
use suse_vm.Prelude.{
  ℕ, ◌<◌, ◌≡◌, ◌≢◌, refl, sym, ◌∙◌, ap, true, false, List, [], ◌∷◌, ltb, pos, pos-injective, update,
  Bool-cases, inl, inr, ◌==◌, ==_iff, arith,
}
use suse_vm.Vmem.Sizes.{npages}
use suse_vm.Vmem.Flags.{present, has}
use suse_vm.Vmem.State.{World, none_pending}
use suse_vm.Vmem.Run.{result}
use suse_vm.Vmem.Cells.{entry_at-ok, with_adm}
use suse_vm.Flat.{Op}
use suse_vm.Manager.Replace.{Algorithm}
use suse_vm.Manager.Signals.{set_signal, noticed}
use suse_vm.Manager.Valid.{IsValid}
use suse_vm.Manager.Exchange.{IsRequest}
use suse_vm.Manager.Served.{Done, Accounted}
use suse_vm.Manager.Fault.{page_fault-Served}
use suse_vm.Access.Ready.{IsValid-kept}
use suse_vm.Processes.{
  handles, client, ready, page, System, note, miss, kill, wait, take_usr1, set_number, see_fault,
  serve, by_client, by_manager, Reach, here, ◌▷◌, both,
}
use suse_vm.Processes.Single.{loaded}
use suse_vm.Processes.Moves.{sem_wait-posted}

-- The frames that held a page before the fault, and the frame that it has filled, are the used ones.
used_before :
    {w w' : World} {r : ℕ} (f : ℕ) (a : Accounted w r w')
    → ltb f w'.vmem.adm.size ≡ true
    → f ≢ a.frame
    → ltb f w.vmem.adm.size ≡ true
used_before f a u ne = let g = a.grows in let h = a.unused_first in ground arith

-- A fault loads no page but the requested one.
module _ {w w' : World} {r : ℕ} (p : ℕ) (v : IsValid w) (d : Done w r w') (ne : p ≢ r)
    (away : has (w.vmem.pt.entries p).flags present ≡ false) where
  not_resident : (f : ℕ) → ltb f w'.vmem.adm.size ≡ true → w'.vmem.pt.framepage f ≢ pos p
  not_resident f u e = elim (Bool-cases (f == d.1.frame)) [
    | inl same ↦ ne (
        pos-injective
          (sym e ∙ ap w'.vmem.pt.framepage ((==_iff f d.1.frame).0 same) ∙ d.1.now_there))
    | inr other ↦
        let n : f ≢ d.1.frame = ground arith in
        let (o, h) = v.coherent.filled f (used_before f d.1 u n) in
        let q : o ≡ p = pos-injective (sym h.page_of ∙ sym (d.1.others f n) ∙ e) in
        false≢true (sym away ∙ ap (λ x. has (w.vmem.pt.entries x).flags present) (sym q) ∙ h.loaded)
  ]

  other_absent : p < npages → has (w'.vmem.pt.entries p).flags present ≡ false
  other_absent l = elim (Bool-cases (has (w'.vmem.pt.entries p).flags present)) [
    | inr e ↦ e
    | inl e ↦
        let (f, u, h) = d.0.valid.coherent.resident p l e in absurd (not_resident f u h.page_of)
  ]

module _ (alg : Algorithm) (op op' : Op) (ops ops' : List Op) {w : World} (valid : IsValid w)
    (no_post : w.vmem.adm.sema ≡ 0) (p_lt : page op < npages) (q_lt : page op' < npages)
    (differ : page op ≢ page op') (away : has (w.vmem.pt.entries (page op)).flags present ≡ false)
    (away' : has (w.vmem.pt.entries (page op')).flags present ≡ false) where
  -- the world when the manager serves the fault
  abbrev asked_for : World
  asked_for = record (with_adm w (record w.vmem.adm { req_pageno = pos (page op') })) {
    signal_number = none_pending;
  }

  asked_for-IsValid : IsValid asked_for
  asked_for-IsValid = IsValid-kept (pos (page op')) w.vmem.adm.sema none_pending w.attached valid

  asked_for-IsRequest : IsRequest asked_for (page op')
  asked_for-IsRequest = record { page_lt = q_lt; requested = refl; absent = away' }

  -- From a valid state with the semaphore at 0, two clients at accesses to two pages that are
  -- not loaded can take turns with the manager, under each algorithm and without SIGUSR2, so that
  -- the first client stands before its access and its page is not loaded.
  pub requests_clash :
      (t : System) × Reach alg false (both (op ∷ ops) (op' ∷ ops') w) t
      × (t.clients 0 ≡ client ready (op ∷ ops) [])
      × (loaded (page op) t.shared ≡ false)
  unfolding update set_signal noticed handles
  requests_clash =
      let (_, u, served, d) =
        result (page_fault-Served alg asked_for (page op') asked_for-IsValid asked_for-IsRequest) in
      (
        _,
        here
            ▷ by_client 0 note
            ▷ by_client 0 (miss (entry_at-ok (page op) _ p_lt) away)
            ▷ by_client 0 kill
            ▷ by_client 1 note
            ▷ by_manager (take_usr1 refl refl)
            ▷ by_manager (set_number refl refl)
            ▷ by_manager (see_fault refl refl refl)
            ▷ by_manager (serve refl served)
            ▷ by_client 0 (wait (sem_wait-posted u (let h = d.0.posted in omega arith))),
        refl,
        other_absent (page op) asked_for-IsValid d differ away p_lt,
      )
