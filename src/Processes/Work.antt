-- ===== src/Processes/Work.antt =====
-- Without SIGUSR2, each step of one client and the manager leaves less to do.
use suse_vm.Prelude.{
  ℕ, zero, suc, ◌+◌, ◌*◌, ◌<◌, ◌≤◌, ◌≡◌, refl, ap, Bool, true, false, List, [], ◌∷◌, length, ◌-◌,
  update_self, arith,
}
use suse_vm.Vmem.State.{World}
use suse_vm.Flat.{Memory, Op}
use suse_vm.Manager.Replace.{Algorithm}
use suse_vm.Processes.{
  Handler, entered, looking, serving, Loop, clearing, pausing, woken, wake, Shared, Client, client,
  idle, noted, absent, waiting, ready, ClientStep, note, find, miss, kill, wait, fetch, store,
  ManagerStep, take_usr1, take_usr2, set_number, see_fault, see_other, serve, clear, look_up,
  System, Step, by_client, by_manager, by_user, Reach, here, later, alone,
}
use suse_vm.Processes.Single.{Quiet}
use suse_vm.Processes.Alone.{Begins, Begins-Alone, Alone, Reach-Alone, ClientStep-ne-finished}

-- the length of a run
pub steps : {alg : Algorithm} {dumps : Bool} {s t : System} → Reach alg dumps s t → ℕ
steps here = 0
steps (later r st) = steps r + 1

-- how many steps are left at most
handler_work : Handler → ℕ
handler_work (entered k) = 3
handler_work (looking k) = 2
handler_work (serving k) = 1

handlers_work : List Handler → ℕ
handlers_work [] = 0
handlers_work (h ∷ hs) = handler_work h + handlers_work hs

loop_work : Loop → ℕ
loop_work pausing = 0
loop_work clearing = 1
loop_work woken = 2

pending_work : Bool → ℕ
pending_work true = 6
pending_work false = 0

shared_work : Shared → ℕ
unfolding handlers_work loop_work pending_work handler_work
shared_work s = pending_work s.usr1_pending + handlers_work s.handlers + loop_work s.loop

-- the current access counts among those to do
client_work : Client → ℕ
client_work (client idle ops rs) = length ops * 11
client_work (client noted ops rs) = length ops * 11 - 1
client_work (client absent ops rs) = length ops * 11 - 2
client_work (client waiting ops rs) = length ops * 11 - 9
client_work (client ready ops rs) = length ops * 11 - 10

ClientStep-work :
    {s t : Shared} {c c' : Client}
    → ClientStep s c c' t
    → client_work c' + shared_work t < client_work c + shared_work s
unfolding client_work shared_work length
ClientStep-work note = omega arith
ClientStep-work (find _ _) = omega arith
ClientStep-work (miss _ _) = omega arith
ClientStep-work {s} kill = ground arith
ClientStep-work (wait _) = omega arith
ClientStep-work (fetch _) = omega arith
ClientStep-work (store _) = omega arith

wake-work : (l : Loop) → loop_work (wake l) ≤ loop_work l + 2
unfolding loop_work
wake-work clearing = omega arith
wake-work pausing = omega arith
wake-work woken = omega arith

ManagerStep-work :
    {alg : Algorithm} {s t : Shared} → Quiet s → ManagerStep alg s t → shared_work t < shared_work s
unfolding shared_work
ManagerStep-work {s} q (take_usr1 p h) = omega (arith, ap pending_work p, wake-work s.loop)
ManagerStep-work q (take_usr2 p h) = absurd (let n = q.no_dump in cc)
ManagerStep-work q (set_number h e) = omega (arith, ap handlers_work h)
ManagerStep-work q (see_fault h a e) = omega (arith, ap handlers_work h)
ManagerStep-work q (see_other h n) = omega (arith, ap handlers_work h)
ManagerStep-work q (serve h e) = omega (arith, ap handlers_work h)
ManagerStep-work q (clear h l e) = omega (arith, ap loop_work l)
ManagerStep-work q (look_up h l e) = omega (arith, ap loop_work l)

system_work : System → ℕ
system_work s = client_work (s.clients 0) + shared_work s.shared

module _ {alg : Algorithm} {ops : List Op} {m : Memory} where
  Step-work :
      {s t : System} → Alone false ops m s → Step alg false s t → system_work t < system_work s
  unfolding system_work
  Step-work {s} a (by_client zero {c} {t} st) = rw (update_self s.clients 0 c) (ClientStep-work st)
  Step-work a (by_client (suc i) st) =
      absurd (ClientStep-ne-finished st (a.others (suc i) (omega arith)))
  Step-work a (by_manager st) = omega (arith, ManagerStep-work (a.inv.quiet refl) st)
  Step-work a (by_user e) = absurd (cc)

  Reach-work :
      {s t : System} (r : Reach alg false s t)
      → Alone false ops m s
      → steps r + system_work t ≤ system_work s
  unfolding steps
  Reach-work here a = omega arith
  Reach-work (later r st) a = omega (arith, Reach-work r a, Step-work (Reach-Alone a r) st)

-- At most eleven steps for each access.
pub steps-le :
    {alg : Algorithm} {ops : List Op} {m : Memory} {w : World} {t : System}
    → Begins ops m w
    → (r : Reach alg false (alone ops w) t) → steps r ≤ length ops * 11
unfolding system_work client_work shared_work
steps-le {ops} {w} {t} b r =
    let h : steps r + system_work t ≤ system_work (alone ops w) =
      Reach-work r (Begins-Alone false b) in
    let e : (alone ops w).clients 0 ≡ client idle ops [] =
      update_self (λ _. client idle [] []) 0 (client idle ops []) in
    let g : client_work ((alone ops w).clients 0) ≡ length ops * 11 = ap client_work e in
    omega arith
