-- ===== src/Processes/Lost.antt =====
-- A request can be lost: `sighandler` of SIGUSR2 interrupts that of SIGUSR1 between the two lines that
-- set and read `signal_number`.
use mathlib.Core.Path.{subst}
use suse_vm.Prelude.{
  ℕ, zero, suc, ◌<◌, ◌≤◌, ◌≡◌, ◌≢◌, refl, ◌∙◌, ap, true, false, List, [], ◌∷◌, ℤ, pos, update,
  update_self, update_ne, update_twice, arith,
}
use suse_vm.Vmem.Sizes.{npages}
use suse_vm.Vmem.Flags.{present, has}
use suse_vm.Vmem.State.{World, sigusr2}
use suse_vm.Vmem.Cells.{with_adm, entry_at-ok}
use suse_vm.Flat.{Op}
use suse_vm.Manager.Replace.{Algorithm}
use suse_vm.Manager.Signals.{set_signal}
use suse_vm.Processes.{
  usr1, usr2, looking, handles, woken, Shared, Client, client, waiting, page, System, ClientStep,
  note, find, miss, kill, wait, fetch, store, take_usr1, take_usr2, set_number, Step, by_client,
  by_manager, by_user, Reach, here, later, ◌▷◌, alone,
}
use suse_vm.Processes.Single.{on_way, sema}
use suse_vm.Processes.Turns.{Turn, calm, served, ManagerStep-Turn, weights-of}
use suse_vm.Processes.Moves.{sem_wait-world}
use suse_vm.Processes.Alone.{finished, ClientStep-ne-finished}

-- The client waits, and nothing is on its way to it.
record Stuck (ops : List Op) (rs : List ℤ) (s : System) : Type 0 where
  waits : s.clients 0 ≡ client waiting ops rs
  none_sent : on_way s.shared ≡ 0
  no_post : sema s.shared ≡ 0
  others : (i : ℕ) → i ≢ 0 → s.clients i ≡ finished

-- A client in `sem_wait` goes on only if the semaphore was posted.
wait-needs_post :
    {s t : Shared} {c c' : Client} {ops : List Op} {rs : List ℤ}
    → ClientStep s c c' t
    → c ≡ client waiting ops rs
    → 1 ≤ sema s
wait-needs_post note e = absurd (cc)
wait-needs_post (find _ _) e = absurd (cc)
wait-needs_post (miss _ _) e = absurd (cc)
wait-needs_post kill e = absurd (cc)
wait-needs_post {s} (wait h) e = (sem_wait-world s.world h).0
wait-needs_post (fetch _) e = absurd (cc)
wait-needs_post (store _) e = absurd (cc)

module _ {alg : Algorithm} {ops : List Op} {rs : List ℤ} where
  Turn-Stuck :
      {s : System} (t : Shared)
      → Turn alg true s.shared t
      → Stuck ops rs s
      → Stuck ops rs (record s { shared = t })
  Turn-Stuck t (calm k) h = record {
    waits = h.waits;
    none_sent = let f = k.fewer in let n = h.none_sent in omega arith;
    no_post = ap (λ (u : World). u.vmem.adm.sema) k.world ∙ h.no_post;
    others = h.others;
  }
  Turn-Stuck t (served e _ _) h = let n = h.none_sent in absurd (omega (arith, weights-of e))

  Step-Stuck : {s t : System} → Step alg true s t → Stuck ops rs s → Stuck ops rs t
  Step-Stuck (by_client zero st) h =
      let n = h.no_post in absurd (omega (arith, wait-needs_post st h.waits))
  Step-Stuck (by_client (suc i) st) h =
      absurd (ClientStep-ne-finished st (h.others (suc i) (omega arith)))
  Step-Stuck (by_manager {t} st) h =
      Turn-Stuck t (ManagerStep-Turn alg true (λ e. absurd (cc)) st) h
  Step-Stuck (by_user e) h = record {
    waits = h.waits;
    none_sent = h.none_sent;
    no_post = h.no_post;
    others = h.others;
  }

  Reach-Stuck : {s t : System} → Stuck ops rs s → Reach alg true s t → Stuck ops rs t
  Reach-Stuck h here = h
  Reach-Stuck h (later r st) = Step-Stuck st (Reach-Stuck h r)

-- The client waits; the handler of SIGUSR1 has set `signal_number` and has not read it, and the
-- handler of SIGUSR2 has interrupted it and set the number anew.
abbrev pub interrupted : Op → List Op → World → System
interrupted op ops w = record {
  clients = update (λ _. finished) 0 (client waiting (op ∷ ops) []);
  shared = record {
    world = record (with_adm w (record w.vmem.adm { req_pageno = pos (page op) })) {
      signal_number = sigusr2;
    };
    usr1_pending = false;
    usr2_pending = false;
    handlers = looking usr2 ∷ looking usr1 ∷ [];
    loop = woken;
  };
}

waiting-update :
    (x y z c : Client)
    → update (update (update (update (λ _. finished) 0 x) 0 y) 0 z) 0 c ≡ update (λ _. finished) 0 c
waiting-update x y z c = rw (update_twice, update_twice, update_twice) refl

interrupted-Stuck :
    (op : Op) (ops : List Op) (w : World)
    → w.vmem.adm.sema ≡ 0
    → Stuck (op ∷ ops) [] (interrupted op ops w)
interrupted-Stuck op ops w no_post = record {
  waits = update_self (λ _. finished) 0 _;
  none_sent = refl;
  no_post = no_post;
  others = λ i n. update_ne (λ _. finished) 0 _ i n;
}

module _ (alg : Algorithm) (op : Op) (ops : List Op) (w : World) (p_lt : page op < npages)
    (away : has (w.vmem.pt.entries (page op)).flags present ≡ false) where
  run_to_interrupted : Reach alg true (alone (op ∷ ops) w) (interrupted op ops w)
  unfolding update set_signal handles
  run_to_interrupted =
      subst
        (λ cs.
          Reach alg true (alone (op ∷ ops) w)
            (record { clients = cs; shared = (interrupted op ops w).shared }))
        (waiting-update _ _ _ _)
        (here
          ▷ by_client 0 note
          ▷ by_client 0 (miss (entry_at-ok (page op) _ p_lt) away)
          ▷ by_client 0 kill
          ▷ by_manager (take_usr1 refl refl)
          ▷ by_manager (set_number refl refl)
          ▷ by_user refl
          ▷ by_manager (take_usr2 refl refl)
          ▷ by_manager (set_number refl refl))

  -- With the semaphore at 0, one client at an access to a page that is not loaded, and SIGUSR2:
  -- the system can reach the state in which the handler of SIGUSR2 has interrupted that of SIGUSR1
  -- before it reads `signal_number`, and in every state that it reaches from there, under each
  -- algorithm, the client still waits for its page.
  pub request_lost :
      w.vmem.adm.sema ≡ 0
      → {t : System} → Reach alg true (interrupted op ops w) t
      → Reach alg true (alone (op ∷ ops) w) (interrupted op ops w)
        × (t.clients 0 ≡ client waiting (op ∷ ops) [])
  request_lost no_post r =
      let h = Reach-Stuck (interrupted-Stuck op ops w no_post) r in (run_to_interrupted, h.waits)
