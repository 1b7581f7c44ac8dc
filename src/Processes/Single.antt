-- ===== src/Processes/Single.antt =====
-- One client beside the manager: at most one request is on its way, and the page is loaded before the
-- client touches it.
use suse_vm.Prelude.{ℕ, ◌+◌, ◌<◌, ◌≤◌, ◌≡◌, Bool, true, false, List, [], ◌∷◌, ◌++◌, ℤ, pos}
use suse_vm.Vmem.Sizes.{virtmem_size}
use suse_vm.Vmem.Flags.{present, has}
use suse_vm.Vmem.State.{World, Signal, sigusr1}
use suse_vm.Manager.Valid.{IsValid, view}
use suse_vm.Flat.{Memory, Op, replies, final, InRange}
use suse_vm.Processes.{
  usr1, usr2, Handler, entered, looking, serving, Shared, Client, client, idle, noted, absent,
  waiting, ready, page,
}

abbrev pub rest : Client → List Op
rest (client p ops rs) = ops

abbrev pub replies_of : Client → List ℤ
replies_of (client p ops rs) = rs

-- the handlers that will serve a fault, or have not yet set `signal_number` for one
abbrev pub weight : Handler → ℕ
weight (entered usr1) = 1
weight (entered usr2) = 0
weight (looking k) = 0
weight (serving k) = 1

abbrev pub weights : List Handler → ℕ
weights [] = 0
weights (h ∷ hs) = weight h + weights hs

abbrev pub bit : Bool → ℕ
bit true = 1
bit false = 0

abbrev pub asks : Signal → ℕ
asks sigusr1 = 1
asks _ = 0

-- the requests that are sent and not served, and will be
abbrev pub on_way : Shared → ℕ
on_way s = bit s.usr1_pending + weights s.handlers + asks s.world.signal_number

abbrev pub sema : Shared → ℕ
sema s = s.world.vmem.adm.sema

abbrev pub loaded : ℕ → Shared → Bool
loaded p s = has (s.world.vmem.pt.entries p).flags present

abbrev pub Requested : Op → Shared → Type 0
Requested op s = s.world.vmem.adm.req_pageno ≡ pos (page op)

-- How the one client and what it shares with the manager fit. `lost` is a request that no handler
-- will serve.
pub data Fits (dumps : Bool) (s : Shared) : Client → Type 0 where
  resting :
      {ops : List Op} {rs : List ℤ} → on_way s ≡ 0 → sema s ≡ 0 → Fits dumps s (client idle ops rs)
  asked :
      {op : Op} {ops : List Op} {rs : List ℤ}
      → on_way s ≡ 0
      → sema s ≡ 0
      → Requested op s
      → Fits dumps s (client noted (op ∷ ops) rs)
  missed :
      {op : Op} {ops : List Op} {rs : List ℤ}
      → on_way s ≡ 0
      → sema s ≡ 0
      → Requested op s
      → loaded (page op) s ≡ false
      → Fits dumps s (client absent (op ∷ ops) rs)
  sent :
      {op : Op} {ops : List Op} {rs : List ℤ}
      → on_way s ≡ 1
      → sema s ≡ 0
      → Requested op s
      → loaded (page op) s ≡ false
      → Fits dumps s (client waiting (op ∷ ops) rs)
  posted :
      {op : Op} {ops : List Op} {rs : List ℤ}
      → on_way s ≡ 0
      → sema s ≡ 1
      → loaded (page op) s ≡ true
      → Fits dumps s (client waiting (op ∷ ops) rs)
  lost :
      {op : Op} {ops : List Op} {rs : List ℤ}
      → dumps ≡ true
      → on_way s ≡ 0
      → sema s ≡ 0
      → Fits dumps s (client waiting (op ∷ ops) rs)
  loaded_for :
      {op : Op} {ops : List Op} {rs : List ℤ}
      → on_way s ≡ 0
      → sema s ≡ 0
      → loaded (page op) s ≡ true
      → Fits dumps s (client ready (op ∷ ops) rs)

-- While nobody sends SIGUSR2, at most one handler runs, and `signal_number` is what it has set.
pub data Steady (s : Shared) : Type 0 where
  no_handler : s.handlers ≡ [] → asks s.world.signal_number ≡ 0 → Steady s
  arriving : s.handlers ≡ entered usr1 ∷ [] → asks s.world.signal_number ≡ 0 → Steady s
  noticing : s.handlers ≡ looking usr1 ∷ [] → s.world.signal_number ≡ sigusr1 → Steady s
  faulting : s.handlers ≡ serving usr1 ∷ [] → asks s.world.signal_number ≡ 0 → Steady s

pub record Quiet (s : Shared) : Type 0 where
  pub no_dump : s.usr2_pending ≡ false
  pub steady : Steady s

-- What the accesses of the client have come to: `memory` is the flat memory by now.
pub record Follows (start : List Op) (m : Memory) (w : World) (c : Client) : Type 0 where
  pub memory : Memory
  pub agree : (b : ℕ) → b < virtmem_size → view w b ≡ memory b
  pub told : replies_of c ++ replies (rest c) memory ≡ replies start m
  pub ends : final (rest c) memory ≡ final start m
  pub in_range : InRange (rest c)

-- what holds of one client and what it shares with the manager, at all times
pub record Inv (dumps : Bool) (start : List Op) (m : Memory) (c : Client) (s : Shared)
    : Type 0 where
  pub valid : IsValid s.world
  pub fits : Fits dumps s c
  pub quiet : dumps ≡ false → Quiet s
  pub follows : Follows start m s.world c

-- A step of the manager that changes no more of the world than `signal_number`.
pub record Calm (dumps : Bool) (s t : Shared) : Type 0 where
  pub signal : Signal
  pub world : t.world ≡ record s.world { signal_number = signal }
  pub fewer : on_way t ≤ on_way s
  pub exact : dumps ≡ false → on_way t ≡ on_way s
  pub quiet : dumps ≡ false → Quiet t
