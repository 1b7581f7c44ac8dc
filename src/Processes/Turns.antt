-- ===== src/Processes/Turns.antt =====
-- The turns of the manager, beside one client.
use mathlib.Core.Bool.{false≢true}
use suse_vm.Prelude.{◌≤◌, ◌≡◌, ◌≢◌, refl, sym, ◌∙◌, ap, Bool, false, List, [], ◌∷◌, arith}
use suse_vm.Vmem.State.{World, Signal, none_pending, sigusr1, sigusr2, sigint, other_signal}
use suse_vm.Vmem.Run.{ok}
use suse_vm.Manager.Replace.{Algorithm}
use suse_vm.Manager.Paging.{page_fault}
use suse_vm.Manager.Signals.{LoopState, set_signal, noticed, after_pause}
use suse_vm.Processes.{
  Sent, usr1, usr2, Handler, entered, looking, serving, handles, Shared, ManagerStep, take_usr1,
  take_usr2, set_number, see_fault, see_other, serve, clear, look_up, signo,
}
use suse_vm.Processes.Single.{
  on_way, weight, weights, asks, bit, Steady, no_handler, arriving, noticing, faulting, Quiet, Calm,
}

set_signal-world :
    {k : Signal} (w : World) {u : World}
    → set_signal k w ≡ ok tt u
    → u ≡ record w { signal_number = k }
unfolding set_signal
set_signal-world w e = cc

noticed-world :
    (w : World) {u : World} → noticed w ≡ ok tt u → u ≡ record w { signal_number = none_pending }
unfolding noticed set_signal
noticed-world w e = cc

-- The loop only reads and sets `signal_number`.
after_pause-world :
    (k : Signal) (w : World) {u : World}
    → after_pause k w ≡ ok LoopState.waiting u
    → (x : Signal) × (u ≡ record w { signal_number = x }) × (asks x ≤ asks w.signal_number)
unfolding after_pause noticed set_signal
after_pause-world none_pending w e = (w.signal_number, cc, omega arith)
after_pause-world sigusr1 w e = (w.signal_number, cc, omega arith)
after_pause-world sigusr2 w e = (none_pending, cc, omega arith)
after_pause-world sigint w e = absurd (cc)
after_pause-world (other_signal n) w e = (w.signal_number, cc, omega arith)

asks-usr1 : (x : Signal) → x ≢ sigusr1 → asks x ≡ 0
asks-usr1 none_pending n = refl
asks-usr1 sigusr1 n = absurd (n refl)
asks-usr1 sigusr2 n = refl
asks-usr1 sigint n = refl
asks-usr1 (other_signal k) n = refl

-- The step is calm, or it serves a fault.
pub data Turn (alg : Algorithm) (dumps : Bool) (s t : Shared) : Type 0 where
  calm : Calm dumps s t → Turn alg dumps s t
  served :
      {k : Sent} {hs : List Handler} {w : World}
      → s.handlers ≡ serving k ∷ hs
      → page_fault alg s.world ≡ ok tt w
      → t ≡ record s { world = w; handlers = hs }
      → Turn alg dumps s t

asks-signo : (k : Sent) → asks (signo k) ≡ weight (entered k)
asks-signo usr1 = refl
asks-signo usr2 = refl

signal-after :
    {x : Signal} (w : World) {u : World} → u ≡ record w { signal_number = x } → u.signal_number ≡ x
signal-after w e = ap (λ (u : World). u.signal_number) e

pub weights-of : {hs gs : List Handler} → hs ≡ gs → weights hs ≡ weights gs
weights-of e = ap weights e

module _ {s : Shared} where
  -- A delivered SIGUSR1 finds no other handler.
  taken-Steady :
      {t : Shared}
      → Steady s
      → handles usr1 s.handlers ≡ false
      → t.handlers ≡ entered usr1 ∷ s.handlers
      → t.world ≡ s.world
      → Steady t
  unfolding handles
  taken-Steady (no_handler e a) h g w =
      arriving (cc) (ap (λ (u : World). asks u.signal_number) w ∙ a)
  taken-Steady (arriving e a) h g w = absurd (false≢true (sym h ∙ ap (handles usr1) e))
  taken-Steady (noticing e a) h g w = absurd (false≢true (sym h ∙ ap (handles usr1) e))
  taken-Steady (faulting e a) h g w = absurd (false≢true (sym h ∙ ap (handles usr1) e))

  -- With one handler at most, it is the handler of SIGUSR1 that comes to set the number.
  entered-alone :
      {k : Sent} {hs : List Handler}
      → Steady s
      → s.handlers ≡ entered k ∷ hs
      → (k ≡ usr1) × (hs ≡ []) × (asks s.world.signal_number ≡ 0)
  entered-alone (no_handler e a) h = absurd (cc)
  entered-alone (arriving e a) h = (cc, cc, a)
  entered-alone (noticing e a) h = absurd (cc)
  entered-alone (faulting e a) h = absurd (cc)

  looking-alone :
      {k : Sent} {hs : List Handler}
      → Steady s
      → s.handlers ≡ looking k ∷ hs
      → (k ≡ usr1) × (hs ≡ []) × (s.world.signal_number ≡ sigusr1)
  looking-alone (no_handler e a) h = absurd (cc)
  looking-alone (arriving e a) h = absurd (cc)
  looking-alone (noticing e a) h = (cc, cc, a)
  looking-alone (faulting e a) h = absurd (cc)

  pub serving-alone :
      {k : Sent} {hs : List Handler}
      → Steady s
      → s.handlers ≡ serving k ∷ hs
      → (hs ≡ []) × (asks s.world.signal_number ≡ 0)
  serving-alone (no_handler e a) h = absurd (cc)
  serving-alone (arriving e a) h = absurd (cc)
  serving-alone (noticing e a) h = absurd (cc)
  serving-alone (faulting e a) h = (cc, a)

  none-alone : Steady s → s.handlers ≡ [] → asks s.world.signal_number ≡ 0
  none-alone (no_handler e a) h = a
  none-alone (arriving e a) h = absurd (cc)
  none-alone (noticing e a) h = absurd (cc)
  none-alone (faulting e a) h = absurd (cc)

module _ (alg : Algorithm) (dumps : Bool) {s : Shared} (quiet : dumps ≡ false → Quiet s) where
  -- In a world that differs in the signal number at most.
  turn-calm :
      {t : Shared} (x : Signal)
      → t.world ≡ record s.world { signal_number = x }
      → on_way t ≤ on_way s
      → (dumps ≡ false → (on_way t ≡ on_way s) × Quiet t)
      → Turn alg dumps s t
  turn-calm x w f q =
      calm (record { signal = x; world = w; fewer = f; exact = λ e. (q e).0; quiet = λ e. (q e).1 })

  pub ManagerStep-Turn : {t : Shared} → ManagerStep alg s t → Turn alg dumps s t
  ManagerStep-Turn (take_usr1 p h) =
      turn-calm s.world.signal_number refl (omega (arith, ap bit p)) λ e. (
        omega (arith, ap bit p),
        record { no_dump = (quiet e).no_dump; steady = taken-Steady (quiet e).steady h refl refl },
      )
  ManagerStep-Turn (take_usr2 p h) =
      turn-calm s.world.signal_number refl (omega arith)
        λ e. absurd (false≢true (sym (quiet e).no_dump ∙ p))
  ManagerStep-Turn (set_number {k} {hs} {w} h e) =
      let u = set_signal-world s.world e in
      let a = ap asks (signal-after s.world u) ∙ asks-signo k in
      turn-calm (signo k) u (omega (arith, a, weights-of h)) λ q.
        let (k1, none, z) = entered-alone (quiet q).steady h in
        (
          omega (arith, a, weights-of h, z),
          record {
            no_dump = (quiet q).no_dump;
            steady = noticing (cc) (signal-after s.world u ∙ ap signo k1);
          },
        )
  ManagerStep-Turn (see_fault {k} {hs} {w} h a e) =
      let u = noticed-world s.world e in
      turn-calm none_pending u
        (omega (arith, ap asks a, ap asks (signal-after s.world u), weights-of h))
        λ q.
          let (k1, none, z) = looking-alone (quiet q).steady h in
          (
            omega (arith, ap asks a, ap asks (signal-after s.world u), weights-of h),
            record {
              no_dump = (quiet q).no_dump;
              steady = faulting (cc) (ap asks (signal-after s.world u));
            },
          )
  ManagerStep-Turn (see_other {k} {hs} h n) =
      turn-calm s.world.signal_number refl (omega (arith, weights-of h))
        λ q. absurd (n (looking-alone (quiet q).steady h).2)
  ManagerStep-Turn (serve h e) = served h e refl
  ManagerStep-Turn (clear {w} h l e) =
      let u = set_signal-world s.world e in
      let a = ap asks (signal-after s.world u) in
      turn-calm none_pending u (omega (arith, a)) λ q. (
        omega (arith, a, none-alone (quiet q).steady h),
        record { no_dump = (quiet q).no_dump; steady = no_handler h a },
      )
  ManagerStep-Turn (look_up {w} h l e) =
      let (x, u, le) = after_pause-world s.world.signal_number s.world e in
      let a = ap asks (signal-after s.world u) in
      turn-calm x u (omega (arith, a, le)) λ q. (
        omega (arith, a, le, none-alone (quiet q).steady h),
        record {
          no_dump = (quiet q).no_dump;
          steady = no_handler h (omega (arith, a, le, none-alone (quiet q).steady h));
        },
      )
