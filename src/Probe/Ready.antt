-- ===== src/Probe/Ready.antt =====
-- What precedes an access in probe/vmaccess.c: the memory is mapped, the page noted, the semaphore
-- taken, and the page loaded.
use suse_vm.Prelude.{
  ℕ, ◌+◌, ◌-◌, ◌<◌, ◌≡◌, refl, true, false, ◌==◌, ℤ, pos, ltb, Bool, Bool-cases, inl, inr, arith,
}
use suse_vm.Vmem.Sizes.{page_size, npages}
use suse_vm.Vmem.Flags.{present, has}
use suse_vm.Vmem.State.{PtEntry, sigusr1}
use suse_vm.Vmem.Run.{ok, Returns, returns, bind}
use suse_vm.Paging.Coherent.{Coherent}
use suse_vm.Manager.Valid.{page_cell}
use suse_vm.Access
use suse_vm.Access.Ready.{CanAttach, vm_init_if_not_ready-attaches}
use suse_vm.Probe.State.{World}
use suse_vm.Probe.Cells.{entry_at-ok}
use suse_vm.Probe.Valid.{IsValid}
use suse_vm.Probe.Served.{Served, IsPlain}
use suse_vm.Probe.Fault.{page_fault-Done}
use suse_vm.Probe.Access.{Config, sighandler, sem_wait, load_if_absent, request_page}

-- the state with another request, semaphore, connection, page table, cells and counts
abbrev pub changed_to :
    World
    → (req : ℤ) (sema : ℕ) (attached : Bool) (es : ℕ → PtEntry) (cells : ℕ → ℤ) (counts : ℕ → ℕ)
    → World
changed_to w req sema attached es cells counts = record w {
  base = record w.base {
    vmem = record w.base.vmem {
      adm = record w.base.vmem.adm { req_pageno = req; sema = sema };
      pt = record w.base.vmem.pt { entries = es };
      cells = cells;
    };
    attached = attached;
  };
  counts = counts;
}

-- The invariant holds in it, if the table and the cells agree with the rest.
pub IsValid-changed :
    {w : World} (req : ℤ) (sema : ℕ) (attached : Bool) {es : ℕ → PtEntry} {cells : ℕ → ℤ}
    (counts : ℕ → ℕ)
    → IsValid w
    → Coherent
        (λ f. ltb f w.base.vmem.adm.size)
        es
        w.base.vmem.pt.framepage
        cells
        w.base.pagefile.ints
    → IsPlain es
    → IsValid (changed_to w req sema attached es cells counts)
IsValid-changed req sema attached counts v c plain = record {
  shared = record {
    size_le = v.shared.size_le;
    next_lt = v.shared.next_lt;
    coherent = c;
    unused = v.shared.unused;
    counted = λ l. refl;
    file_length = v.shared.file_length;
    file_sound = v.shared.file_sound;
  };
  plain = plain;
  full = v.full;
}

-- The page is loaded, the semaphore is taken, and else nothing has changed that an access sees.
pub record Ready (w : World) (p : ℕ) (w' : World) : Type 0 where
  pub valid : IsValid w'
  pub same_view :
      (q k : ℕ) → q < npages → k < page_size → page_cell w'.base q k ≡ page_cell w.base q k
  pub loaded : has (w'.base.vmem.pt.entries p).flags present ≡ true
  pub taken : w'.base.vmem.adm.sema + 1 ≡ w.base.vmem.adm.sema
  pub is_attached : w'.base.attached ≡ true
  pub same_counts : w'.counts ≡ w.counts

abbrev lowered : World → World
lowered u =
    changed_to u u.base.vmem.adm.req_pageno (u.base.vmem.adm.sema - 1) u.base.attached
      u.base.vmem.pt.entries u.base.vmem.cells u.counts

sem_wait-lowers : (u : World) → 0 < u.base.vmem.adm.sema → sem_wait u ≡ ok tt (lowered u)
unfolding Access.sem_wait
sem_wait-lowers u up = let e : (u.base.vmem.adm.sema == 0) ≡ false = ground arith in rw e refl

-- with the page noted and the client attached, before and after the first wait
abbrev noted : World → ℕ → World
noted w p =
    changed_to w (pos p) w.base.vmem.adm.sema true w.base.vmem.pt.entries w.base.vmem.cells w.counts

module _ {w : World} {p : ℕ} (v : IsValid w) (p_lt : p < npages)
    (up : 0 < w.base.vmem.adm.sema) where
  lowered-IsValid : IsValid (lowered (noted w p))
  lowered-IsValid =
      IsValid-changed (pos p) (w.base.vmem.adm.sema - 1) true w.counts v v.shared.coherent v.plain

  -- The wait ends: the handler has posted.
  sem_wait-Ready :
      {w' : World} → Served (lowered (noted w p)) p w' → Returns (λ _. Ready w p) (sem_wait w')
  sem_wait-Ready {w'} s = rw (sem_wait-lowers w' (omega (arith, s.posted))) (
      returns (record {
        valid =
            IsValid-changed w'.base.vmem.adm.req_pageno (w'.base.vmem.adm.sema - 1) w'.base.attached
              w'.counts s.valid s.valid.shared.coherent s.valid.plain;
        same_view = s.same_view;
        loaded = s.loaded;
        taken = omega (arith, s.posted);
        is_attached = s.attached;
        same_counts = s.same_counts;
      }))

  handler-Served :
      (c : Config)
      → has (w.base.vmem.pt.entries p).flags present ≡ false
      → Returns
          (λ _. Served (lowered (noted w p)) p)
          (sighandler c.abi c.algorithm sigusr1 (lowered (noted w p)))
  unfolding sighandler
  handler-Served c away =
      bind
        (page_fault-Done c.abi c.algorithm (lowered (noted w p)) p lowered-IsValid
          (record { page_lt = p_lt; requested = refl; absent = away }))
        (λ _ w' s. returns (s.0))

  load_if_absent-Ready :
      (c : Config)
      → Returns
          (λ _. Ready w p)
          (load_if_absent c (w.base.vmem.pt.entries p).flags (lowered (noted w p)))
  unfolding load_if_absent
  load_if_absent-Ready c = elim (Bool-cases (has (w.base.vmem.pt.entries p).flags present)) [
    | inl here ↦ rw here (
        returns (record {
          valid = lowered-IsValid;
          same_view = λ q k ql kl. refl;
          loaded = here;
          taken = omega arith;
          is_attached = refl;
          same_counts = refl;
        }))
    | inr away ↦ rw away (bind (handler-Served c away) (λ _ w' s. sem_wait-Ready s))
  ]

  -- `request_page` returns with the page loaded, and never blocks for good.
  pub request_page-Ready :
      (c : Config) → CanAttach c.os w.base → Returns (λ _. Ready w p) (request_page c p w)
  unfolding request_page
  request_page-Ready c can = rw (vm_init_if_not_ready-attaches c.os w.base can) (
      rw (sem_wait-lowers (noted w p) up)
        (rw (entry_at-ok c.abi p (lowered (noted w p)) p_lt) (load_if_absent-Ready c)))
