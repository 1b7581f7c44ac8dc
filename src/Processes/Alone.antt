-- ===== src/Processes/Alone.antt =====
-- One client beside the manager: what holds of the system in every state that it reaches.
use mathlib.Core.Path.{subst}
use suse_vm.Prelude.{
  ℕ, zero, suc, ◌<◌, ◌≡◌, ◌≢◌, refl, sym, ◌∙◌, ap, Bool, true, List, [], ◌∷◌, update, update_self,
  update_ne, arith,
}
use suse_vm.Vmem.Sizes.{virtmem_size}
use suse_vm.Vmem.State.{World, none_pending}
use suse_vm.Flat.{Memory, Op, InRange}
use suse_vm.Manager.Replace.{Algorithm}
use suse_vm.Manager.Valid.{IsValid, view}
use suse_vm.Processes.{
  Shared, Client, client, idle, System, ClientStep, note, find, miss, kill, wait, fetch, store,
  Step, by_client, by_manager, by_user, Reach, here, later, at_rest, alone,
}
use suse_vm.Processes.Single.{resting, no_handler, Calm, Inv, rest}
use suse_vm.Processes.Keeps.{Calm-Inv, ManagerStep-Inv}
use suse_vm.Processes.Moves.{ClientStep-Inv}

-- The state that one client finds with its accesses to do.
pub record Begins (ops : List Op) (m : Memory) (w : World) : Type 0 where
  pub valid : IsValid w
  pub no_post : w.vmem.adm.sema ≡ 0
  pub no_signal : w.signal_number ≡ none_pending
  pub agree : (b : ℕ) → b < virtmem_size → view w b ≡ m b
  pub in_range : InRange ops

abbrev pub finished : Client
finished = client idle [] []

-- what holds of the whole system: client 0 and the manager fit, and the others have nothing to do
pub record Alone (dumps : Bool) (ops : List Op) (m : Memory) (s : System) : Type 0 where
  pub inv : Inv dumps ops m (s.clients 0) s.shared
  pub others : (i : ℕ) → i ≢ 0 → s.clients i ≡ finished

Begins-Inv :
    (dumps : Bool) {ops : List Op} {m : Memory} {w : World}
    → Begins ops m w
    → Inv dumps ops m (client idle ops []) (at_rest w)
Begins-Inv dumps b = record {
  valid = b.valid;
  fits = resting (rw b.no_signal refl) b.no_post;
  quiet = λ e. record { no_dump = refl; steady = no_handler refl (rw b.no_signal refl) };
  follows = record { memory = _; agree = b.agree; told = refl; ends = refl; in_range = b.in_range };
}

pub Begins-Alone :
    (dumps : Bool) {ops : List Op} {m : Memory} {w : World}
    → Begins ops m w
    → Alone dumps ops m (alone ops w)
unfolding update
Begins-Alone dumps b = record {
  inv = Begins-Inv dumps b;
  others = λ i n. update_ne (λ _. finished) 0 _ i n;
}

no_rest : {op : Op} {ops : List Op} → op ∷ ops ≢ []
no_rest e = cc

-- A client that has something to do is not finished.
pub ClientStep-ne-finished : {s t : Shared} {c c' : Client} → ClientStep s c c' t → c ≢ finished
ClientStep-ne-finished note e = no_rest (ap rest e)
ClientStep-ne-finished (find _ _) e = no_rest (ap rest e)
ClientStep-ne-finished (miss _ _) e = no_rest (ap rest e)
ClientStep-ne-finished kill e = no_rest (ap rest e)
ClientStep-ne-finished (wait _) e = no_rest (ap rest e)
ClientStep-ne-finished (fetch _) e = no_rest (ap rest e)
ClientStep-ne-finished (store _) e = no_rest (ap rest e)

-- A dump that is asked for is a calm step.
dumped-Calm :
    {dumps : Bool} (s : Shared) → dumps ≡ true → Calm dumps s (record s { usr2_pending = true })
dumped-Calm s e = record {
  signal = s.world.signal_number;
  world = refl;
  fewer = omega arith;
  exact = λ q. absurd (cc);
  quiet = λ q. absurd (cc);
}

module _ {alg : Algorithm} {dumps : Bool} {ops : List Op} {m : Memory} where
  pub Step-Alone : {s t : System} → Step alg dumps s t → Alone dumps ops m s → Alone dumps ops m t
  Step-Alone {s} (by_client zero {c} {t} st) a = record {
    inv =
        subst (λ x. Inv dumps ops m x t) (sym (update_self s.clients 0 c))
          (ClientStep-Inv st a.inv);
    others = λ i n. update_ne s.clients 0 c i n ∙ a.others i n;
  }
  Step-Alone (by_client (suc i) st) a =
      absurd (ClientStep-ne-finished st (a.others (suc i) (omega arith)))
  Step-Alone (by_manager st) a = record { inv = ManagerStep-Inv a.inv alg st; others = a.others }
  Step-Alone {s} (by_user e) a = record {
    inv = Calm-Inv (dumped-Calm s.shared e) a.inv;
    others = a.others;
  }

  pub Reach-Alone : {s t : System} → Alone dumps ops m s → Reach alg dumps s t → Alone dumps ops m t
  Reach-Alone a here = a
  Reach-Alone a (later r st) = Step-Alone st (Reach-Alone a r)
