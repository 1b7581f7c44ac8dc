-- ===== src/Processes/Progress.antt =====
-- Without SIGUSR2, one client and the manager come to the end of the client's accesses.
use mathlib.Core.Path.{subst}
use mathlib.Core.List.{append-nil}
use suse_vm.Prelude.{
  ℕ, ◌*◌, ◌<◌, ◌≤◌, ◌≡◌, ◌⊎◌, inl, inr, refl, sym, ◌∙◌, ap, Bool, true, false, List, [], ◌∷◌, ℤ,
  length, Bool-cases, arith,
}
use suse_vm.Vmem.Sizes.{npages}
use suse_vm.Vmem.Flags.{present, has}
use suse_vm.Vmem.State.{World}
use suse_vm.Vmem.Run.{result}
use suse_vm.Vmem.Cells.{entry_at-ok}
use suse_vm.Flat.{Memory, Op, read, write, replies, InRange}
use suse_vm.Manager.Replace.{Algorithm}
use suse_vm.Manager.Valid.{IsValid}
use suse_vm.Manager.Exchange.{IsRequest}
use suse_vm.Manager.Signals.{set_signal, noticed}
use suse_vm.Manager.Fault.{page_fault-Served}
use suse_vm.Access.Refine.{page_of-lt, offset-lt}
use suse_vm.Access.Cells.{read_page-DidRead, write_page-DidWrite}
use suse_vm.Processes.{
  usr1, handles, Shared, Client, client, idle, noted, ready, page, ClientStep, note, find, miss,
  kill, wait, fetch, store, ManagerStep, take_usr1, set_number, see_fault, serve, System, Step,
  by_client, by_manager, Reach, alone,
}
use suse_vm.Processes.Single.{
  on_way, bit, Fits, resting, asked, missed, sent, posted, lost, loaded_for, Steady, no_handler,
  arriving, noticing, faulting, Quiet, Follows, rest, loaded,
}
use suse_vm.Processes.Keeps.{page-lt}
use suse_vm.Processes.Moves.{sem_wait-posted}
use suse_vm.Processes.Turns.{weights-of}
use suse_vm.Processes.Alone.{Begins, Begins-Alone, Reach-Alone}
use suse_vm.Processes.Work.{steps, steps-le}

-- someone has a step, or the client has finished
data Next (alg : Algorithm) (s : Shared) (c : Client) : Type 0 where
  finished : {rs : List ℤ} → c ≡ client idle [] rs → Next alg s c
  client_next : {c' : Client} {t : Shared} → ClientStep s c c' t → Next alg s c
  manager_next : {t : Shared} → ManagerStep alg s t → Next alg s c

pending-set : (b : Bool) → bit b ≡ 1 → b ≡ true
pending-set true e = refl
pending-set false e = absurd (omega arith)

module _ (alg : Algorithm) {s : Shared} where
  -- A request on its way is taken up, step by step, and served.
  sent-next :
      (c : Client) {p : ℕ}
      → Steady s
      → IsValid s.world
      → IsRequest s.world p
      → on_way s ≡ 1
      → Next alg s c
  unfolding handles set_signal noticed
  sent-next c (no_handler e n) v q w =
      manager_next (take_usr1 (pending-set _ (omega (arith, weights-of e))) (ap (handles usr1) e))
  sent-next c (arriving e n) v q w = manager_next (set_number e refl)
  sent-next c (noticing e n) v q w = manager_next (see_fault e n refl)
  sent-next c {p} (faulting e n) v q w =
      let (_, u, h, _) = result (page_fault-Served alg s.world p v q) in manager_next (serve e h)

  noted-next :
      (op : Op) (ops : List Op) (rs : List ℤ)
      → page op < npages
      → Next alg s (client noted (op ∷ ops) rs)
  noted-next op ops rs l =
      elim (Bool-cases (has (s.world.vmem.pt.entries (page op)).flags present)) [
        | inl here ↦ client_next (find (entry_at-ok (page op) s.world l) here)
        | inr away ↦ client_next (miss (entry_at-ok (page op) s.world l) away)
      ]

  ready-next :
      (op : Op) (ops : List Op) (rs : List ℤ)
      → IsValid s.world
      → InRange (op ∷ ops)
      → loaded (page op) s ≡ true
      → Next alg s (client ready (op ∷ ops) rs)
  ready-next (read a) ops rs v r l =
      let (x, w, e, _) = result (read_page-DidRead v (page_of-lt a r.0) (offset-lt a) l) in
      client_next (fetch e)
  ready-next (write a x) ops rs v r l =
      let (_, w, e, _) = result (write_page-DidWrite v (page_of-lt a r.0) (offset-lt a) l x) in
      client_next (store e)

  Fits-next :
      {c : Client} → Fits false s c → IsValid s.world → Quiet s → InRange (rest c) → Next alg s c
  Fits-next (resting {ops = []} w z) v q r = finished refl
  Fits-next (resting {ops = op ∷ ops} w z) v q r = client_next note
  Fits-next (asked {op} {ops} {rs} w z h) v q r = noted-next op ops rs (page-lt op ops r)
  Fits-next (missed w z h a) v q r = client_next kill
  Fits-next (sent {op} {ops} w z h a) v q r =
      sent-next _ q.steady v (record { page_lt = page-lt op ops r; requested = h; absent = a }) w
  Fits-next (posted w z a) v q r = client_next (wait (sem_wait-posted s.world (omega arith)))
  Fits-next (lost d w z) v q r = absurd (cc)
  Fits-next (loaded_for {op} {ops} {rs} w z a) v q r = ready-next op ops rs v r a

-- the client has finished with what the flat memory says, or someone has a step
abbrev pub Goes : Algorithm → List Op → Memory → System → Type 0
Goes alg ops m t =
    (t.clients 0 ≡ client idle [] (replies ops m)) ⊎ ((u : System) × Step alg false t u)

Next-Goes :
    {alg : Algorithm} {ops : List Op} {m : Memory} {t : System} {c : Client}
    → t.clients 0 ≡ c
    → Follows ops m t.shared.world c
    → Next alg t.shared c
    → Goes alg ops m t
unfolding replies
Next-Goes {ops} {m} {t} e f (finished {rs} g) =
    let told = (subst (Follows ops m t.shared.world) g f).told in
    inl (e ∙ g ∙ ap (λ y. client idle [] y) (sym (append-nil rs) ∙ told))
Next-Goes {t} e f (client_next {c'} {t = u} st) =
    inr (_, by_client 0 (subst (λ x. ClientStep t.shared x c' u) (sym e) st))
Next-Goes e f (manager_next st) = inr (_, by_manager st)

-- From a valid state with the semaphore at 0 and no signal, in any order of the steps of one client,
-- whose accesses are all to addresses below 1024, and the manager, and without SIGUSR2: a run has at most 11 steps for each access, and at
-- its end either all accesses are done and the reads have returned what a flat memory's reads return,
-- or someone has a step.
pub all_served :
    (alg : Algorithm) (ops : List Op) (m : Memory) {w : World}
    → Begins ops m w
    → {t : System} (r : Reach alg false (alone ops w) t)
    → (steps r ≤ length ops * 11) × Goes alg ops m t
all_served alg ops m b {t} r =
    let i = (Reach-Alone (Begins-Alone false b) r).inv in
    (
      steps-le b r,
      Next-Goes refl i.follows (Fits-next alg i.fits i.valid (i.quiet refl) i.follows.in_range),
    )
