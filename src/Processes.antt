-- ===== src/Processes.antt =====
-- The processes of working/ side by side: clients in working/vmaccess.c and the memory manager in
-- working/mmanage.c take turns in any order. A client's turn is one statement that touches the shared
-- memory, a signal or the semaphore, and the access itself. The manager's turn is one statement
-- that touches `signal_number`, the delivery of a signal, or the whole of `page_fault`, which no
-- other handler of the manager disturbs. A signal is pending or not, as SIGUSR1 and SIGUSR2 are
-- not queued; it is not delivered while its own handler runs, but the other one is (`sa_mask` is
-- empty). The clients are attached, and nobody sends SIGINT.
pub mod Single
pub mod Turns
pub mod Keeps
pub mod Moves
pub mod Alone
pub mod Refine
pub mod Work
pub mod Progress
pub mod Lost
pub mod Clash
use suse_vm.Prelude.{ℕ, ◌/◌, ◌%◌, ◌≡◌, ◌≢◌, Bool, true, false, List, [], ◌∷◌, ◌++◌, ℤ, pos, update}
use suse_vm.Vmem.Sizes.{page_size}
use suse_vm.Vmem.Flags.{present, has}
use suse_vm.Vmem.State.{PtEntry, World, Signal, none_pending, sigusr1, sigusr2}
use suse_vm.Vmem.Run.{ok}
use suse_vm.Vmem.Cells.{with_adm, entry_at}
use suse_vm.Flat.{Op, read, write}
use suse_vm.Manager.Replace.{Algorithm}
use suse_vm.Manager.Paging.{page_fault}
use suse_vm.Manager.Signals.{LoopState, set_signal, noticed, after_pause}
use suse_vm.Access.{sem_wait, read_page, write_page}

-- the two signals that are sent
pub data Sent : Type 0 where
  usr1 usr2 : Sent

abbrev pub signo : Sent → Signal
signo usr1 = sigusr1
signo usr2 = sigusr2

-- Where a running call of `sighandler` stands: before it sets `signal_number`, before
-- `case_page_fault` reads it, and after `noticed`.
pub data Handler : Type 0 where
  entered looking serving : Sent → Handler

-- whether a handler of the signal runs
unfoldable pub handles : Sent → List Handler → Bool
handles k [] = false
handles usr1 (entered usr1 ∷ hs) = true
handles usr1 (looking usr1 ∷ hs) = true
handles usr1 (serving usr1 ∷ hs) = true
handles usr2 (entered usr2 ∷ hs) = true
handles usr2 (looking usr2 ∷ hs) = true
handles usr2 (serving usr2 ∷ hs) = true
handles k (_ ∷ hs) = handles k hs

-- Where `signal_proccessing_loop` stands: before `signal_number = 0`, in `pause`, and after it.
pub data Loop : Type 0 where
  clearing pausing woken : Loop

abbrev pub wake : Loop → Loop
wake clearing = clearing
wake pausing = woken
wake woken = woken

-- What the processes share, with the pending signals, and the manager's running handlers, the
-- innermost first.
pub record Shared : Type 0 where
  pub world : World
  pub usr1_pending : Bool
  pub usr2_pending : Bool
  pub handlers : List Handler
  pub loop : Loop

-- Where a client stands in `vmem_read` or `vmem_write`: before the call, after the request is noted,
-- after the page was found absent, in `sem_wait`, and before the access.
pub data Point : Type 0 where
  idle noted absent waiting ready : Point

-- the point, the accesses to do (the current one first), and what the reads have returned
pub data Client : Type 0 where
  client : Point → List Op → List ℤ → Client

abbrev pub address : Op → ℕ
address (read a) = a
address (write a x) = a

abbrev pub page : Op → ℕ
page op = address op / page_size

-- One step of a client.
pub data ClientStep (s : Shared) : Client → Client → Shared → Type 0 where
  note :
      {op : Op} {ops : List Op} {rs : List ℤ}
      → ClientStep s (client idle (op ∷ ops) rs) (client noted (op ∷ ops) rs) (record s {
        world = with_adm s.world (record s.world.vmem.adm { req_pageno = pos (page op) });
      })
  find :
      {op : Op} {ops : List Op} {rs : List ℤ} {e : PtEntry} {w : World}
      → entry_at (pos (page op)) s.world ≡ ok e w
      → has e.flags present ≡ true
      → ClientStep s (client noted (op ∷ ops) rs) (client ready (op ∷ ops) rs) s
  miss :
      {op : Op} {ops : List Op} {rs : List ℤ} {e : PtEntry} {w : World}
      → entry_at (pos (page op)) s.world ≡ ok e w
      → has e.flags present ≡ false
      → ClientStep s (client noted (op ∷ ops) rs) (client absent (op ∷ ops) rs) s
  kill :
      {op : Op} {ops : List Op} {rs : List ℤ}
      → ClientStep s
          (client absent (op ∷ ops) rs)
          (client waiting (op ∷ ops) rs)
          (record s { usr1_pending = true })
  wait :
      {op : Op} {ops : List Op} {rs : List ℤ} {w : World}
      → sem_wait s.world ≡ ok tt w
      → ClientStep s
          (client waiting (op ∷ ops) rs)
          (client ready (op ∷ ops) rs)
          (record s { world = w })
  fetch :
      {a : ℕ} {ops : List Op} {rs : List ℤ} {x : ℤ} {w : World}
      → read_page (pos (a / page_size)) (a % page_size) s.world ≡ ok x w
      → ClientStep s
          (client ready (read a ∷ ops) rs)
          (client idle ops (rs ++ x ∷ []))
          (record s { world = w })
  store :
      {a : ℕ} {x : ℤ} {ops : List Op} {rs : List ℤ} {w : World}
      → write_page (pos (a / page_size)) (a % page_size) x s.world ≡ ok tt w
      → ClientStep s
          (client ready (write a x ∷ ops) rs)
          (client idle ops rs)
          (record s { world = w })

-- One step of the manager.
pub data ManagerStep (alg : Algorithm) (s : Shared) : Shared → Type 0 where
  take_usr1 :
      s.usr1_pending ≡ true
      → handles usr1 s.handlers ≡ false
      → ManagerStep alg s (record s {
        usr1_pending = false;
        handlers = entered usr1 ∷ s.handlers;
        loop = wake s.loop;
      })
  take_usr2 :
      s.usr2_pending ≡ true
      → handles usr2 s.handlers ≡ false
      → ManagerStep alg s (record s {
        usr2_pending = false;
        handlers = entered usr2 ∷ s.handlers;
        loop = wake s.loop;
      })
  set_number :
      {k : Sent} {hs : List Handler} {w : World}
      → s.handlers ≡ entered k ∷ hs
      → set_signal (signo k) s.world ≡ ok tt w
      → ManagerStep alg s (record s { world = w; handlers = looking k ∷ hs })
  see_fault :
      {k : Sent} {hs : List Handler} {w : World}
      → s.handlers ≡ looking k ∷ hs
      → s.world.signal_number ≡ sigusr1
      → noticed s.world ≡ ok tt w
      → ManagerStep alg s (record s { world = w; handlers = serving k ∷ hs })
  see_other :
      {k : Sent} {hs : List Handler}
      → s.handlers ≡ looking k ∷ hs
      → s.world.signal_number ≢ sigusr1
      → ManagerStep alg s (record s { handlers = hs })
  serve :
      {k : Sent} {hs : List Handler} {w : World}
      → s.handlers ≡ serving k ∷ hs
      → page_fault alg s.world ≡ ok tt w
      → ManagerStep alg s (record s { world = w; handlers = hs })
  clear :
      {w : World}
      → s.handlers ≡ []
      → s.loop ≡ clearing
      → set_signal none_pending s.world ≡ ok tt w
      → ManagerStep alg s (record s { world = w; loop = pausing })
  look_up :
      {w : World}
      → s.handlers ≡ []
      → s.loop ≡ woken
      → after_pause s.world.signal_number s.world ≡ ok LoopState.waiting w
      → ManagerStep alg s (record s { world = w; loop = clearing })

pub record System : Type 0 where
  pub clients : ℕ → Client
  pub shared : Shared

-- One step of anyone. `dumps` says whether somebody sends SIGUSR2.
pub data Step (alg : Algorithm) (dumps : Bool) (s : System) : System → Type 0 where
  by_client :
      (i : ℕ) {c : Client} {t : Shared}
      → ClientStep s.shared (s.clients i) c t
      → Step alg dumps s (record { clients = update s.clients i c; shared = t })
  by_manager :
      {t : Shared} → ManagerStep alg s.shared t → Step alg dumps s (record s { shared = t })
  by_user :
      dumps ≡ true
      → Step alg dumps s (record s { shared = record s.shared { usr2_pending = true } })

pub data Reach (alg : Algorithm) (dumps : Bool) (s : System) : System → Type 0 where
  here : Reach alg dumps s s
  later : {t u : System} → Reach alg dumps s t → Step alg dumps t u → Reach alg dumps s u

-- a run and one step more
infixl 5 ◌▷◌
abbrev pub ◌▷◌ :
    {alg : Algorithm} {dumps : Bool} {s t u : System}
    → Reach alg dumps s t
    → Step alg dumps t u
    → Reach alg dumps s u
r ▷ st = later r st

-- the manager in its loop with no signal pending
abbrev pub at_rest : World → Shared
at_rest w = record {
  world = w;
  usr1_pending = false;
  usr2_pending = false;
  handlers = [];
  loop = pausing;
}

-- one client with accesses to do
abbrev pub alone : List Op → World → System
alone ops w = record {
  clients = update (λ _. client idle [] []) 0 (client idle ops []);
  shared = at_rest w;
}

-- two clients with accesses to do
abbrev pub both : List Op → List Op → World → System
both ops ops' w = record {
  clients = update (update (λ _. client idle [] []) 0 (client idle ops [])) 1 (client idle ops' []);
  shared = at_rest w;
}
