-- ===== src/Processes/Moves.antt =====
-- The steps of the one client.
use mathlib.Core.Path.{subst}
use mathlib.Core.List.{append_assoc}
use suse_vm.Prelude.{
  ℕ, ◌+◌, ◌-◌, ◌/◌, ◌%◌, ◌<◌, ◌≤◌, ◌≡◌, refl, sym, ◌∙◌, ap, Bool, true, false, List, [], ◌∷◌, ◌++◌,
  ℤ, pos, update, ◌==◌, arith, if◌then◌else◌,
}
use suse_vm.Vmem.Sizes.{page_size, npages, virtmem_size}
use suse_vm.Vmem.Flags.{present, has}
use suse_vm.Vmem.State.{World, PtEntry}
use suse_vm.Vmem.Run.{ok, at_result}
use suse_vm.Vmem.Cells.{with_adm, entry_at, entry_at-ok}
use suse_vm.Flat.{Memory, Op, read, write, replies, final}
use suse_vm.Manager.Valid.{IsValid, view}
use suse_vm.Access.{sem_wait}
use suse_vm.Access.Ready.{IsValid-kept}
use suse_vm.Access.Refine.{page_of-lt, offset-lt, same_address}
use suse_vm.Access.Cells.{DidRead, DidWrite, read_page-DidRead, write_page-DidWrite}
use suse_vm.Processes.{
  Shared, Client, client, Point, idle, noted, absent, waiting, ready, page, ClientStep, note, find,
  miss, kill, wait, fetch, store,
}
use suse_vm.Processes.Single.{
  on_way, weights, bit, asks, sema, loaded, Requested, Fits, resting, asked, missed, sent, posted,
  lost, loaded_for, Steady, no_handler, arriving, noticing, faulting, Follows, Inv,
}
use suse_vm.Processes.Keeps.{page-lt}

pub sem_wait-world :
    (w : World) {u : World}
    → sem_wait w ≡ ok tt u
    → (1 ≤ w.vmem.adm.sema) × (u ≡ with_adm w (record w.vmem.adm { sema = w.vmem.adm.sema - 1 }))
unfolding sem_wait
sem_wait-world w e = ground arith

pub sem_wait-posted :
    (w : World)
    → 1 ≤ w.vmem.adm.sema
    → sem_wait w ≡ ok tt (with_adm w (record w.vmem.adm { sema = w.vmem.adm.sema - 1 }))
unfolding sem_wait
sem_wait-posted w h = ground arith

-- At another point of the same access the accesses have come to the same.
Follows-moved :
    {start : List Op} {m : Memory} {w : World} (w' : World) {p : Point} (p' : Point) {ops : List Op}
    {rs : List ℤ}
    → ((b : ℕ) → b < virtmem_size → view w' b ≡ view w b)
    → Follows start m w (client p ops rs)
    → Follows start m w' (client p' ops rs)
Follows-moved w' p' same f = record {
  memory = f.memory;
  agree = λ b l. same b l ∙ f.agree b l;
  told = f.told;
  ends = f.ends;
  in_range = f.in_range;
}

update-as-if :
    (w : World) (m : Memory) (a : ℕ) (x : ℤ) (b : ℕ)
    → view w b ≡ m b
    → (if b == a then x else view w b) ≡ update m a x b
unfolding update
update-as-if w m a x b e = ap (λ y. if b == a then x else y) e

Follows-fetch :
    {start : List Op} {m : Memory} {w w' : World} {a : ℕ} {x : ℤ} {ops : List Op} {rs : List ℤ}
    → Follows start m w (client ready (read a ∷ ops) rs)
    → DidRead w (a / page_size) (a % page_size) x w'
    → Follows start m w' (client idle ops (rs ++ x ∷ []))
unfolding view replies final
Follows-fetch {a} {x} {ops} {rs} f d = record {
  memory = f.memory;
  agree = λ b l. d.same_view _ _ (page_of-lt b l) (offset-lt b) ∙ f.agree b l;
  told =
      append_assoc rs (x ∷ []) (replies ops f.memory)
      ∙ ap (λ y. rs ++ y ∷ replies ops f.memory) (d.is_value ∙ f.agree a f.in_range.0)
      ∙ f.told;
  ends = f.ends;
  in_range = f.in_range.1;
}

Follows-store :
    {start : List Op} {m : Memory} {w w' : World} {a : ℕ} {x : ℤ} {ops : List Op} {rs : List ℤ}
    → Follows start m w (client ready (write a x ∷ ops) rs)
    → DidWrite w (a / page_size) (a % page_size) x w'
    → Follows start m w' (client idle ops rs)
unfolding view replies final
Follows-store {w} {a} {x} f d = record {
  memory = update f.memory a x;
  agree = λ b l.
      d.new_view _ _ (page_of-lt b l) (offset-lt b)
      ∙ ap (λ y. if y then x else view w b) (same_address a b)
      ∙ update-as-if w f.memory a x b (f.agree b l);
  told = f.told;
  ends = f.ends;
  in_range = f.in_range.1;
}

-- `kill` and the access change no handler and no signal number.
Steady-same :
    {s : Shared} (t : Shared)
    → t.handlers ≡ s.handlers
    → t.world.signal_number ≡ s.world.signal_number
    → Steady s
    → Steady t
Steady-same t h g (no_handler e a) = no_handler (h ∙ e) (ap asks g ∙ a)
Steady-same t h g (arriving e a) = arriving (h ∙ e) (ap asks g ∙ a)
Steady-same t h g (noticing e a) = noticing (h ∙ e) (g ∙ a)
Steady-same t h g (faulting e a) = faulting (h ∙ e) (ap asks g ∙ a)

module _ {dumps : Bool} {s : Shared} where
  at_noted :
      {op : Op} {ops : List Op} {rs : List ℤ}
      → Fits dumps s (client noted (op ∷ ops) rs)
      → (on_way s ≡ 0) × (sema s ≡ 0) × Requested op s
  at_noted (asked w z q) = (w, z, q)

  pub at_ready :
      {op : Op} {ops : List Op} {rs : List ℤ}
      → Fits dumps s (client ready (op ∷ ops) rs)
      → (on_way s ≡ 0) × (sema s ≡ 0) × (loaded (page op) s ≡ true)
  at_ready (loaded_for w z a) = (w, z, a)

  at_idle :
      {ops : List Op} {rs : List ℤ}
      → Fits dumps s (client idle ops rs)
      → (on_way s ≡ 0) × (sema s ≡ 0)
  at_idle (resting w z) = (w, z)

  at_absent :
      {op : Op} {ops : List Op} {rs : List ℤ}
      → Fits dumps s (client absent (op ∷ ops) rs)
      → (on_way s ≡ 0) × (sema s ≡ 0) × Requested op s × (loaded (page op) s ≡ false)
  at_absent (missed w z q a) = (w, z, q, a)

  at_posted :
      {op : Op} {ops : List Op} {rs : List ℤ}
      → Fits dumps s (client waiting (op ∷ ops) rs)
      → 1 ≤ sema s
      → (on_way s ≡ 0) × (sema s ≡ 1) × (loaded (page op) s ≡ true)
  at_posted (sent w z q a) h = absurd (omega arith)
  at_posted (posted w z a) h = (w, z, a)
  at_posted (lost d w z) h = absurd (omega arith)

entry_found :
    (op : Op) (u : World) {e : PtEntry} {w : World}
    → page op < npages
    → entry_at (pos (page op)) u ≡ ok e w
    → e ≡ u.vmem.pt.entries (page op)
entry_found op u {e} {w} l h = let g = entry_at-ok (page op) u l in cc

-- Every step of the client keeps what holds between it and the manager.
pub ClientStep-Inv :
    {dumps : Bool} {start : List Op} {m : Memory} {s t : Shared} {c c' : Client}
    → ClientStep s c c' t
    → Inv dumps start m c s
    → Inv dumps start m c' t
unfolding view
ClientStep-Inv {s} (note {op}) i =
    let (w, z) = at_idle i.fits in
    record {
      valid = IsValid-kept (pos (page op)) (sema s) s.world.signal_number s.world.attached i.valid;
      fits = asked w z refl;
      quiet = λ q. record {
        no_dump = (i.quiet q).no_dump;
        steady = Steady-same _ refl refl (i.quiet q).steady;
      };
      follows = Follows-moved _ noted (λ b l. refl) i.follows;
    }
ClientStep-Inv {s} (find {op} {ops} h p) i =
    let (w, z, q) = at_noted i.fits in
    let e = entry_found op s.world (page-lt op ops i.follows.in_range) h in
    record {
      valid = i.valid;
      fits = loaded_for w z (ap (λ (x : PtEntry). has x.flags present) (sym e) ∙ p);
      quiet = i.quiet;
      follows = Follows-moved _ ready (λ b l. refl) i.follows;
    }
ClientStep-Inv {s} (miss {op} {ops} h p) i =
    let (w, z, q) = at_noted i.fits in
    let e = entry_found op s.world (page-lt op ops i.follows.in_range) h in
    record {
      valid = i.valid;
      fits = missed w z q (ap (λ (x : PtEntry). has x.flags present) (sym e) ∙ p);
      quiet = i.quiet;
      follows = Follows-moved _ absent (λ b l. refl) i.follows;
    }
ClientStep-Inv {s} kill i =
    let (w, z, q, a) = at_absent i.fits in
    record {
      valid = i.valid;
      fits = sent (ground arith) z q a;
      quiet = λ q. record {
        no_dump = (i.quiet q).no_dump;
        steady = Steady-same _ refl refl (i.quiet q).steady;
      };
      follows = Follows-moved _ waiting (λ b l. refl) i.follows;
    }
ClientStep-Inv {s} (wait {op} {w} e) i =
    let (h, u) = sem_wait-world s.world e in
    let (y, z, a) = at_posted i.fits h in
    record {
      valid = subst IsValid (sym u) (
          IsValid-kept s.world.vmem.adm.req_pageno (sema s - 1) s.world.signal_number
            s.world.attached i.valid);
      fits =
          loaded_for
            (ap (λ (x : World). bit s.usr1_pending + weights s.handlers + asks x.signal_number) u
              ∙ y)
            (omega (arith, ap (λ (x : World). x.vmem.adm.sema) u))
            (ap (λ (x : World). has (x.vmem.pt.entries (page op)).flags present) u ∙ a);
      quiet = λ q. record {
        no_dump = (i.quiet q).no_dump;
        steady = Steady-same _ refl (ap (λ (x : World). x.signal_number) u) (i.quiet q).steady;
      };
      follows = Follows-moved w ready (λ b l. ap (λ (x : World). view x b) u) i.follows;
    }
ClientStep-Inv {s} (fetch {a} {ops} {rs} {x} {w} e) i =
    let (y, z, l) = at_ready i.fits in
    let d =
      at_result (read_page-DidRead i.valid (page_of-lt a i.follows.in_range.0) (offset-lt a) l) e in
    record {
      valid = d.valid;
      fits = resting (omega (arith, ap asks d.same_signal)) (d.same_sema ∙ z);
      quiet = λ q. record {
        no_dump = (i.quiet q).no_dump;
        steady = Steady-same _ refl d.same_signal (i.quiet q).steady;
      };
      follows = Follows-fetch i.follows d;
    }
ClientStep-Inv {s} (store {a} {x} {ops} {rs} {w} e) i =
    let (y, z, l) = at_ready i.fits in
    let d =
      at_result (write_page-DidWrite i.valid (page_of-lt a i.follows.in_range.0) (offset-lt a) l x)
        e in
    record {
      valid = d.valid;
      fits = resting (omega (arith, ap asks d.same_signal)) (d.same_sema ∙ z);
      quiet = λ q. record {
        no_dump = (i.quiet q).no_dump;
        steady = Steady-same _ refl d.same_signal (i.quiet q).steady;
      };
      follows = Follows-store i.follows d;
    }
