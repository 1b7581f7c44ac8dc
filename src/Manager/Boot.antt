-- ===== src/Manager/Boot.antt =====
-- The start of working/mmanage.c: `init_pagefile`, `open_logfile`, `vmem_init`.
use suse_vm.Prelude.{ℕ, ◌*◌, ◌%◌, Bool, not, [], if◌then◌else◌, ◌==◌, ℤ, pos, negsuc, blit}
use suse_vm.Vmem.Sizes.{npages, nframes, page_size, void_idx}
use suse_vm.Vmem.Os.{Mapping, null, map_failed, mapped, OsReply}
use suse_vm.Vmem.Run.{ok, stop, Cmd, fail, exit_failure, out_of_bounds}
use suse_vm.Vmem.Pagefile.{run_length}

-- `MY_RANDOM_MOD`
abbrev pub random_mod : ℕ
random_mod = 123

-- `init_pagefile`: `rand i` is the value of the call number `i` of `rand` after `srand`, and
-- `opened` says whether `fopen` succeeded. Only a write of nothing at all is taken for a failure.
unfoldable pub init_pagefile : (rand : ℕ → ℕ) → (opened : Bool) → Cmd (Unit {0})
init_pagefile rand opened w =
    let n = npages * page_size in
    let count = run_length (λ i. not (w.pagefile.broken i)) 0 n in
    if opened
    then (if count == 0
        then stop exit_failure
        else ok tt (record w {
          pagefile = record w.pagefile {
            ints = blit (λ _. pos 0) 0 (λ i. pos (rand i % random_mod)) 0 count;
            length = count;
            position = count;
          };
        }))
    else stop exit_failure

-- `open_logfile`
unfoldable pub open_logfile : (opened : Bool) → Cmd (Unit {0})
open_logfile opened w = if opened then ok tt (record w { logfile = [] }) else stop exit_failure

abbrev pub is_zero : ℤ → Bool
is_zero (pos n) = n == 0
is_zero (negsuc n) = Bool.false

-- the assignments of `vmem_init`
unfoldable pub fill_vmem : (pid : ℕ) → Cmd (Unit {0})
fill_vmem pid w = ok tt (record w {
  vmem = record w.vmem {
    adm = record w.vmem.adm {
      size = 0;
      mmanage_pid = pid;
      shm_id = void_idx;
      sema = 0;
      req_pageno = void_idx;
      next_alloc_idx = 0;
      pf_count = 0;
    };
    pt = record {
      entries = blit w.vmem.pt.entries 0 (λ _. record { flags = 0; frame = void_idx }) 0 npages;
      framepage = blit w.vmem.pt.framepage 0 (λ _. void_idx) 0 nframes;
    };
    cells = blit w.vmem.cells 0 (λ _. void_idx) 0 (nframes * page_size);
  };
})

-- `vmem_init` from `mmap` on. A store through `MAP_FAILED` is a store outside of every object.
unfoldable pub mapped_init : Mapping → (sem_result : ℤ) → (pid : ℕ) → Cmd (Unit {0})
mapped_init null sem_result pid = fail exit_failure
mapped_init map_failed sem_result pid = fail out_of_bounds
mapped_init mapped sem_result pid = if is_zero sem_result then fill_vmem pid else fail exit_failure

-- `vmem_init`
unfoldable pub vmem_init : OsReply → (pid : ℕ) → Cmd (Unit {0})
unfolding mapped_init
vmem_init os pid =
    if is_zero os.fd
    then fail exit_failure
    else (if is_zero os.truncated
        then mapped_init os.mapping os.sem_result pid
        else fail exit_failure)
