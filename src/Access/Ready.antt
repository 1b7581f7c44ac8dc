-- ===== src/Access/Ready.antt =====
-- What precedes an access in working/vmaccess.c: the memory is mapped, the page noted and loaded.
use suse_vm.Prelude.{
  ℕ, ◌-◌, ◌<◌, ◌≡◌, refl, Bool, true, false, ◌==◌, ℤ, pos, Bool-cases, inl, inr, ◌⊎◌, arith,
}
use suse_vm.Vmem.Sizes.{page_size, npages}
use suse_vm.Vmem.Flags.{present, has}
use suse_vm.Vmem.State.{World, Signal, none_pending}
use suse_vm.Vmem.Os.{mapped, OsReply}
use suse_vm.Vmem.Run.{ok, Returns, returns, bind}
use suse_vm.Vmem.Cells.{with_adm, entry_at-ok}
use suse_vm.Manager.Signals.{sighandler, case_page_fault, set_signal, noticed}
use suse_vm.Manager.Valid.{IsValid, page_cell}
use suse_vm.Manager.Served.{Served}
use suse_vm.Manager.Fault.{page_fault-Served}
use suse_vm.Access.{
  Config, is_zero, is_minus_one, vm_init_if_not_ready, sem_wait, load_if_absent, request_page,
}

-- The client is attached already, or the system lets it attach.
pub record Attaches (os : OsReply) : Type 0 where
  pub opened : is_zero os.fd ≡ false
  pub sized : is_minus_one os.truncated ≡ false
  pub at_address : os.mapping ≡ mapped

abbrev pub CanAttach : OsReply → World → Type 0
CanAttach os w = (w.attached ≡ true) ⊎ Attaches os

abbrev attached_to : World → World
attached_to w = record w { attached = true }

pub vm_init_if_not_ready-attaches :
    (os : OsReply) (w : World) → CanAttach os w → vm_init_if_not_ready os w ≡ ok tt (attached_to w)
unfolding vm_init_if_not_ready
vm_init_if_not_ready-attaches os w (inl e) = rw e refl
vm_init_if_not_ready-attaches os w (inr a) = elim (Bool-cases w.attached) [
  | inl e ↦ rw e refl
  | inr e ↦ rw e (rw (a.opened, a.sized, a.at_address) refl)
]

-- The page is loaded, and else nothing has changed that an access sees.
pub record Ready (w : World) (p : ℕ) (w' : World) : Type 0 where
  pub valid : IsValid w'
  pub same_view : (q k : ℕ) → q < npages → k < page_size → page_cell w' q k ≡ page_cell w q k
  pub loaded : has (w'.vmem.pt.entries p).flags present ≡ true
  pub same_sema : w'.vmem.adm.sema ≡ w.vmem.adm.sema
  pub is_attached : w'.attached ≡ true

-- Neither the request nor the semaphore, the signal number or the client is in the invariant.
pub IsValid-kept :
    {w : World} (req : ℤ) (sema : ℕ) (signo : Signal) (attached : Bool)
    → IsValid w
    → IsValid (record (with_adm w (record w.vmem.adm { req_pageno = req; sema = sema })) {
      signal_number = signo;
      attached = attached;
    })
IsValid-kept req sema signo attached v = record {
  size_le = v.size_le;
  next_lt = v.next_lt;
  coherent = v.coherent;
  unused = v.unused;
  counted = v.counted;
  file_length = v.file_length;
  file_sound = v.file_sound;
}

-- the state in which the request is noted
abbrev noted : World → ℕ → World
noted w p = with_adm (attached_to w) (record w.vmem.adm { req_pageno = pos p })

noted-IsValid : {w : World} (p : ℕ) → IsValid w → IsValid (noted w p)
noted-IsValid {w} p v = IsValid-kept (pos p) w.vmem.adm.sema w.signal_number true v

-- the state in which the handler has noticed the signal
abbrev noticed_in : World → World
noticed_in w = record w { signal_number = none_pending }

noticed-IsValid : {w : World} → IsValid w → IsValid (noticed_in w)
noticed-IsValid {w} v = IsValid-kept w.vmem.adm.req_pageno w.vmem.adm.sema none_pending w.attached v

module _ {w : World} {p : ℕ} (v : IsValid w) (p_lt : p < npages) where
  -- The wait ends: the handler has posted.
  sem_wait-Ready :
      {w' : World} → Served (noticed_in (noted w p)) p w' → Returns (λ _. Ready w p) (sem_wait w')
  unfolding sem_wait
  sem_wait-Ready {w'} s =
      let e : (w'.vmem.adm.sema == 0) ≡ false = ground (arith, s.posted) in
      rw e (
        returns (record {
          valid =
              IsValid-kept w'.vmem.adm.req_pageno (w'.vmem.adm.sema - 1) w'.signal_number
                w'.attached s.valid;
          same_view = s.same_view;
          loaded = s.loaded;
          same_sema = omega (arith, s.posted);
          is_attached = s.attached;
        }))

  load_if_absent-Ready :
      (c : Config)
      → Returns (λ _. Ready w p) (load_if_absent c (w.vmem.pt.entries p).flags (noted w p))
  unfolding load_if_absent sighandler case_page_fault set_signal noticed
  load_if_absent-Ready c = elim (Bool-cases (has (w.vmem.pt.entries p).flags present)) [
    | inl here ↦ rw here (
        returns (record {
          valid = noted-IsValid p v;
          same_view = λ q k ql kl. refl;
          loaded = here;
          same_sema = refl;
          is_attached = refl;
        }))
    | inr away ↦ rw away (
        bind
          (page_fault-Served c.algorithm (noticed_in (noted w p)) p
            (noticed-IsValid (noted-IsValid p v))
            (record { page_lt = p_lt; requested = refl; absent = away }))
          (λ _ w' s. sem_wait-Ready s.0))
  ]

  -- `request_page` returns with the page loaded, and never blocks for good.
  pub request_page-Ready :
      (c : Config) → CanAttach c.os w → Returns (λ _. Ready w p) (request_page c (pos p) w)
  unfolding request_page
  request_page-Ready c can =
      rw (vm_init_if_not_ready-attaches c.os w can, entry_at-ok p (noted w p) p_lt)
        (load_if_absent-Ready c)
