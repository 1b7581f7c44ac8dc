-- ===== src/Processes/Keeps.antt =====
-- Every step of the manager and of the one client keeps what holds between them.
use mathlib.Core.Path.{subst}
use suse_vm.Prelude.{
  ℕ, ◌<◌, ◌≤◌, ◌≡◌, sym, ◌∙◌, ap, Bool, true, List, ◌∷◌, ◌==◌, ==_iff, Bool-cases, inl, inr, arith,
}
use suse_vm.Vmem.Sizes.{npages, virtmem_size}
use suse_vm.Vmem.Flags.{present, has}
use suse_vm.Vmem.State.{World, Signal}
use suse_vm.Vmem.Run.{ok, at_result}
use suse_vm.Flat.{Memory, Op, read, write, InRange}
use suse_vm.Manager.Replace.{Algorithm}
use suse_vm.Manager.Valid.{IsValid, view}
use suse_vm.Manager.Paging.{page_fault}
use suse_vm.Manager.Exchange.{IsRequest}
use suse_vm.Manager.Fault.{page_fault-Served}
use suse_vm.Access.Ready.{IsValid-kept}
use suse_vm.Access.Refine.{page_of-lt, offset-lt}
use suse_vm.Processes.{Sent, Handler, serving, Shared, Client, page, ManagerStep}
use suse_vm.Processes.Single.{
  on_way, asks, sema, loaded, Fits, resting, asked, missed, sent, posted, lost, loaded_for,
  no_handler, Calm, Follows, Inv, rest,
}
use suse_vm.Processes.Turns.{Turn, calm, served, ManagerStep-Turn, serving-alone, weights-of}

pub page-lt : (op : Op) (ops : List Op) → InRange (op ∷ ops) → page op < npages
page-lt (read a) ops h = page_of-lt a h.0
page-lt (write a x) ops h = page_of-lt a h.0

signal-IsValid : {w : World} (x : Signal) → IsValid w → IsValid (record w { signal_number = x })
signal-IsValid {w} x v = IsValid-kept w.vmem.adm.req_pageno w.vmem.adm.sema x w.attached v

-- The accesses do not see a world whose virtual memory is the same.
Follows-view :
    {start : List Op} {m : Memory} {w : World} (w' : World) {c : Client}
    → ((b : ℕ) → b < virtmem_size → view w' b ≡ view w b)
    → Follows start m w c
    → Follows start m w' c
Follows-view w' same f = record {
  memory = f.memory;
  agree = λ b l. same b l ∙ f.agree b l;
  told = f.told;
  ends = f.ends;
  in_range = f.in_range;
}

module _ {dumps : Bool} {s t : Shared} (k : Calm dumps s t) where
  same_sema : sema t ≡ sema s
  same_sema = ap (λ (u : World). u.vmem.adm.sema) k.world

  same_request : t.world.vmem.adm.req_pageno ≡ s.world.vmem.adm.req_pageno
  same_request = ap (λ (u : World). u.vmem.adm.req_pageno) k.world

  same_loaded : (p : ℕ) → loaded p t ≡ loaded p s
  same_loaded p = ap (λ (u : World). has (u.vmem.pt.entries p).flags present) k.world

  none_on_way : on_way s ≡ 0 → on_way t ≡ 0
  none_on_way e = let f = k.fewer in omega arith

  Calm-Fits : {c : Client} → Fits dumps s c → Fits dumps t c
  Calm-Fits (resting w z) = resting (none_on_way w) (same_sema ∙ z)
  Calm-Fits (asked w z r) = asked (none_on_way w) (same_sema ∙ z) (same_request ∙ r)
  Calm-Fits (missed w z r a) =
      missed (none_on_way w) (same_sema ∙ z) (same_request ∙ r) (same_loaded _ ∙ a)
  Calm-Fits (sent w z r a) = elim (Bool-cases dumps) [
    | inr e ↦ sent (k.exact e ∙ w) (same_sema ∙ z) (same_request ∙ r) (same_loaded _ ∙ a)
    | inl e ↦ elim (Bool-cases (on_way t == 0)) [
      | inl none ↦ lost e ((==_iff _ _).0 none) (same_sema ∙ z)
      | inr some ↦
          let f = k.fewer in
          sent (ground arith) (same_sema ∙ z) (same_request ∙ r) (same_loaded _ ∙ a)
    ]
  ]
  Calm-Fits (posted w z a) = posted (none_on_way w) (same_sema ∙ z) (same_loaded _ ∙ a)
  Calm-Fits (lost d w z) = lost d (none_on_way w) (same_sema ∙ z)
  Calm-Fits (loaded_for w z a) = loaded_for (none_on_way w) (same_sema ∙ z) (same_loaded _ ∙ a)

  pub Calm-Inv :
      {start : List Op} {m : Memory} {c : Client} → Inv dumps start m c s → Inv dumps start m c t
  unfolding view
  Calm-Inv i = record {
    valid = subst IsValid (sym k.world) (signal-IsValid k.signal i.valid);
    fits = Calm-Fits i.fits;
    quiet = k.quiet;
    follows = Follows-view t.world (λ b l. ap (λ (u : World). view u b) k.world) i.follows;
  }

-- A request on its way: the client waits for it, and a fault that is served lets it go on.
pub record Awaited (dumps : Bool) (s : Shared) (c : Client) : Type 0 where
  pub p : ℕ
  pub request : IsRequest s.world p
  single : on_way s ≡ 1
  unposted : sema s ≡ 0
  goes_on : (t : Shared) → on_way t ≡ 0 → sema t ≡ 1 → loaded p t ≡ true → Fits dumps t c

pub Fits-Awaited :
    {dumps : Bool} {s : Shared} {c : Client}
    → Fits dumps s c
    → 1 ≤ on_way s
    → InRange (rest c)
    → Awaited dumps s c
Fits-Awaited (resting w z) h r = absurd (omega arith)
Fits-Awaited (asked w z q) h r = absurd (omega arith)
Fits-Awaited (missed w z q a) h r = absurd (omega arith)
Fits-Awaited (sent {op} {ops} w z q a) h r = record {
  p = page op;
  request = record { page_lt = page-lt op ops r; requested = q; absent = a };
  single = w;
  unposted = z;
  goes_on = λ t w' z' a'. posted w' z' a';
}
Fits-Awaited (posted w z a) h r = absurd (omega arith)
Fits-Awaited (lost d w z) h r = absurd (omega arith)
Fits-Awaited (loaded_for w z a) h r = absurd (omega arith)

module _ {dumps : Bool} {start : List Op} {m : Memory} {c : Client} {s : Shared}
    (i : Inv dumps start m c s) where
  served-Inv :
      (alg : Algorithm) {k : Sent} {hs : List Handler} {w : World}
      → s.handlers ≡ serving k ∷ hs
      → page_fault alg s.world ≡ ok tt w
      → Inv dumps start m c (record s { world = w; handlers = hs })
  unfolding view
  served-Inv alg {k} {hs} {w} h e =
      let a = Fits-Awaited i.fits (omega (arith, weights-of h)) i.follows.in_range in
      let (d, _) = at_result (page_fault-Served alg s.world a.p i.valid a.request) e in
      let n = ap asks d.same_signal in
      record {
        valid = d.valid;
        fits =
            a.goes_on _ (omega (arith, n, a.single, weights-of h))
              (omega (arith, d.posted, a.unposted)) d.loaded;
        quiet = λ q. record {
          no_dump = (i.quiet q).no_dump;
          steady =
              no_handler (serving-alone (i.quiet q).steady h).0
                (n ∙ (serving-alone (i.quiet q).steady h).1);
        };
        follows = Follows-view w (λ b l. d.same_view _ _ (page_of-lt b l) (offset-lt b)) i.follows;
      }

  Turn-Inv : {alg : Algorithm} {t : Shared} → Turn alg dumps s t → Inv dumps start m c t
  Turn-Inv (calm k) = Calm-Inv k i
  Turn-Inv {alg} (served h e q) = subst (Inv dumps start m c) (sym q) (served-Inv alg h e)

  pub ManagerStep-Inv : (alg : Algorithm) {t : Shared} → ManagerStep alg s t → Inv dumps start m c t
  ManagerStep-Inv alg st = Turn-Inv (ManagerStep-Turn alg dumps i.quiet st)
