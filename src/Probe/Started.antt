-- ===== src/Probe/Started.antt =====
-- The start of probe/mmanage.c establishes the invariant, and the counts stay as they were.
use suse_vm.Prelude.{ℕ, ◌-◌, ◌%◌, ◌^◌, ◌<◌, ◌≡◌, refl, ◌∙◌, false, true, not, pos, [], arith}
use suse_vm.Vmem.Sizes.{nframes, virtmem_size, void_idx}
use suse_vm.Vmem.Os.{mapped}
use suse_vm.Vmem.Run.{Returns, returns}
use suse_vm.Vmem.Pagefile.{run_length_all}
use suse_vm.Manager.Valid.{view}
use suse_vm.Manager.Started.{blit_start, emptied-blank, Coherent-empty, view-empty}
use suse_vm.Access.{is_minus_one}
use suse_vm.Probe.State.{World}
use suse_vm.Probe.Valid.{IsValid}
use suse_vm.Probe.Boot.{
  Setup, init_pagefile, open_logfile, fill_vmem, vmem_init, init_semaphor, install_handler, start,
}

-- Every call that the start makes succeeds.
pub record Succeeds (s : Setup) : Type 0 where
  pub pagefile : s.pagefile_opened ≡ true
  pub logfile : s.logfile_opened ≡ true
  pub at_address : s.mapping ≡ mapped
  pub semaphore : is_minus_one s.sem_result ≡ false
  pub usr1 : is_minus_one s.usr1_installed ≡ false
  pub usr2 : is_minus_one s.usr2_installed ≡ false
  pub int : is_minus_one s.int_installed ≡ false

-- The state `w'` after the start from `w`.
pub record Begun (s : Setup) (w w' : World) : Type 0 where
  pub valid : IsValid w'
  pub random : (a : ℕ) → a < virtmem_size → view w'.base a ≡ pos (s.rand a % 1000)
  pub no_frames : w'.base.vmem.adm.size ≡ 0
  pub semaphore_up : w'.base.vmem.adm.sema ≡ 1
  pub no_faults : w'.base.vmem.adm.pf_count ≡ 2 ^ 32 - 1
  pub empty_log : w'.base.logfile ≡ []
  pub same_counts : w'.counts ≡ w.counts

-- If every call that it makes succeeds and the medium is sound, the start of the manager in a new
-- process establishes the invariant from any memory content: no frame is filled, the semaphore is 1,
-- the fault counter is -1, the log is empty, and the virtual memory holds the random ints; the counts
-- that LFU goes by are those that the memory held before.
pub start-Begun :
    (s : Setup) (w : World)
    → Succeeds s
    → w.data_full ≡ false
    → ((i : ℕ) → i < virtmem_size → w.base.pagefile.broken i ≡ false)
    → Returns (λ _. Begun s w) (start s w)
unfolding start view init_pagefile open_logfile vmem_init fill_vmem init_semaphor install_handler
start-Begun s w h not_full sound =
    rw
      (
        run_length_all (λ i. not (w.base.pagefile.broken i)) 0 virtmem_size
            (λ k a b. rw (sound k b) refl),
        h.pagefile,
        h.logfile,
        h.at_address,
        h.semaphore,
        h.usr1,
        h.usr2,
        h.int,
      )
      (returns (record {
        valid = record {
          shared = record {
            size_le = omega arith;
            next_lt = omega arith;
            coherent = Coherent-empty _ _ _ _;
            unused = λ f a b. blit_start w.base.vmem.pt.framepage (λ _. void_idx) nframes f b;
            counted = λ l. refl;
            file_length = refl;
            file_sound = sound;
          };
          plain = λ p l. rw (emptied-blank w.base.vmem.pt.entries p l) (omega arith);
          full = λ e. absurd (ground (arith, e, not_full));
        };
        random = λ a l.
            view-empty w.base.vmem.pt.entries _ _ a l
            ∙ blit_start (λ _. pos 0) (λ i. pos (s.rand i % 1000)) virtmem_size a l;
        no_frames = refl;
        semaphore_up = refl;
        no_faults = refl;
        empty_log = refl;
        same_counts = refl;
      }))
