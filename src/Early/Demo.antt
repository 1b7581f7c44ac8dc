-- ===== src/Early/Demo.antt =====
-- The demo application of Aufgabe3/vmappl.c after the start of the manager.
use suse_vm.Prelude.{ℕ, ◌<◌, ◌≤◌, ◌≡◌, refl, true, false, not, inr, arith}
use suse_vm.Vmem.Sizes.{nframes, virtmem_size, void_idx}
use suse_vm.Vmem.Flags.{has-zero, present}
use suse_vm.Vmem.State.{World}
use suse_vm.Vmem.Run.{Returns, returns, bind, mono, ◌>>◌}
use suse_vm.Vmem.Pagefile.{run_length_all}
use suse_vm.Manager.Boot
use suse_vm.Manager.Main.{Setup}
use suse_vm.Manager.Started.{emptied-blank, blit_start}
use suse_vm.Access.{Config}
use suse_vm.Access.Ready.{Attaches}
use suse_vm.Early.Boot.{
  init_pagefile, vmem_init, mapped_init, fill_adm, init_semaphore, fill_tables, install_handler,
  start,
}
use suse_vm.Early.Appl.{test_from}
use suse_vm.Early.First.{Succeeds}
use suse_vm.Early.ReadTest.{Tested, limit, test_from-succeeds}

module _ (s : Setup) (c : Config) (w : World) (h : Succeeds s)
    (sound : (i : ℕ) → i < virtmem_size → w.pagefile.broken i ≡ false) (can : Attaches c.os) where
  start-Tested : Returns (λ _. Tested c 0) (start s w)
  unfolding start init_pagefile Boot.open_logfile vmem_init mapped_init fill_adm init_semaphore
      fill_tables install_handler
  start-Tested =
      let empty = emptied-blank w.vmem.pt.entries in
      rw
        (
          run_length_all (λ i. not (w.pagefile.broken i)) 0 virtmem_size
              (λ k l u. rw (sound k u) refl),
          h.pagefile,
          h.logfile,
          h.opened,
          h.sized,
          h.at_address,
          h.semaphore,
          h.usr1,
          h.usr2,
          h.int,
        )
        (returns (record {
          pages = 0;
          enough = omega arith;
          no_more = omega arith;
          loaded = record {
            table = record {
              small = λ q l. rw (empty q l) (omega arith);
              here = λ q l. absurd (omega arith);
              frame = λ q l. absurd (omega arith);
              absent = λ q a l. rw (empty q l) (has-zero present);
            };
            size = refl;
            unused = λ f a l. blit_start w.vmem.pt.framepage (λ _. void_idx) nframes f l;
            file = record { whole = refl; sound = sound };
          };
          can = inr can;
        }))

  -- After a start in which every call succeeds and the medium is sound, with a client that can attach
  -- and a manager that serves each fault before the client looks at the semaphore, the test of up to
  -- 120 addresses from 0 on returns, and succeeds.
  pub start-test_from :
      (n : ℕ) → n ≤ limit → Returns (λ x _. x ≡ true) ((start s >> test_from c true n 0) w)
  start-test_from n le =
      bind start-Tested λ _ u t. mono (test_from-succeeds c n 0 (omega arith) t) λ x v q. q.0
