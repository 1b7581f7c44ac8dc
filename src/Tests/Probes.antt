-- ===== src/Tests/Probes.antt =====
-- The simulator of probe/ at concrete inputs: runs, and the theorems.
use suse_vm.Prelude.{
  ℕ, ◌<◌, ◌≡◌, refl, length, ◌==◌, if◌then◌else◌, true, false, List, [], ◌∷◌, Option, some, none, ℤ,
  pos, arith, inr, ◌+◌, ◌*◌,
}
use suse_vm.Vmem.Sizes.{virtmem_size}
use suse_vm.Vmem.Flags.{present, has-zero}
use suse_vm.Vmem.Run.{Run, ok, stop, Returns}
use suse_vm.Vmem.Os.{mapped}
use suse_vm.Vmem.Cells.{framepage_at}
use suse_vm.Flat
use suse_vm.Flat.{Op, read, write}
use suse_vm.Manager.Valid.{view}
use suse_vm.Manager.Exchange.{IsRequest}
use suse_vm.Probe.State.{World, ilp32, lp64}
use suse_vm.Probe.Replace.{Algorithm, lfu, find_remove_lfu, lfu_loop, frame_count}
use suse_vm.Probe.Paging.{page_fault}
use suse_vm.Probe.Cells
use suse_vm.Probe.Valid.{IsValid}
use suse_vm.Probe.Served.{Done}
use suse_vm.Probe.Least.{Evicted, page_fault-Evicted}
use suse_vm.Probe.Counts.{reads_from, counts-InRange}
use suse_vm.Probe.State.{int_min}
use suse_vm.Probe.Fault.{page_fault-Done}
use suse_vm.Probe.Access.{Config}
use suse_vm.Probe.Refine.{run, reads_of, run_counts_reads}
use suse_vm.Probe.Boot.{Setup, start}
use suse_vm.Probe.Started.{Begun, start-Begun}
use suse_vm.Tests.Worlds
use suse_vm.Tests.Worlds.{fine, raw, full_entries}
use suse_vm.Tests.Witnesses.{fine-Attaches}

-- all frames filled, the semaphore up, page 20 requested, page 3 read least often
abbrev crowded : World
crowded = record {
  base = record Worlds.full {
    vmem = record Worlds.full.vmem { adm = record Worlds.full.vmem.adm { sema = 1 } };
  };
  counts = λ p. if p == 3 then 1 else 4;
  g_count = 0;
  padding = 0;
  data_full = true;
}

crowded-IsValid : IsValid crowded
crowded-IsValid = record {
  shared = record {
    size_le = omega arith;
    next_lt = omega arith;
    coherent = Worlds.full-IsValid.coherent;
    unused = Worlds.full-IsValid.unused;
    counted = λ l. refl;
    file_length = refl;
    file_sound = λ i l. refl;
  };
  plain = λ p l. ground arith;
  full = λ e. omega arith;
}

crowded-IsRequest : IsRequest crowded.base 20
crowded-IsRequest = record { page_lt = omega arith; requested = refl; absent = has-zero present }

abbrev config : Algorithm → Config
config alg = record { abi = lp64; algorithm = alg; os = fine }

abbrev picked : Run World ℤ → Option ℤ
picked (ok z w) = some z
picked (stop e) = none

lfu_pick : picked (find_remove_lfu lp64 crowded) ≡ some (pos 3)
unfolding find_remove_lfu lfu_loop frame_count Cells.count_at framepage_at
lfu_pick = refl

page_fault-Done_example : Returns (λ _. Done ilp32 crowded 20) (page_fault ilp32 lfu crowded)
page_fault-Done_example = page_fault-Done ilp32 lfu crowded 20 crowded-IsValid crowded-IsRequest

abbrev accesses : List Op
accesses = write 5 (pos 42) ∷ read 5 ∷ read 900 ∷ []

run_counts_reads_example :
    Returns
      (λ xs w.
        (xs ≡ Flat.replies accesses (view crowded.base))
        × IsValid w
        × ((b : ℕ) → b < virtmem_size → view w.base b ≡ Flat.final accesses (view crowded.base) b)
        × (w.base.vmem.adm.sema ≡ 1)
        × (w.counts ≡ reads_of accesses crowded.counts))
      (run (config lfu) accesses crowded)
run_counts_reads_example =
    run_counts_reads (config lfu) accesses (view crowded.base) crowded-IsValid (omega arith)
      (inr fine-Attaches) (λ b l. refl) (omega arith)

abbrev setup : Setup
setup = record {
  abi = ilp32;
  algorithm = lfu;
  rand = λ i. 7 * i + 3;
  pagefile_opened = true;
  logfile_opened = true;
  mapping = mapped;
  pid = 100;
  sem_result = pos 0;
  usr1_installed = pos 0;
  usr2_installed = pos 0;
  int_installed = pos 0;
}

abbrev unset : World
unset = record { base = raw; counts = λ p. p; g_count = 0; padding = 0; data_full = false }

start-Begun_example : Returns (λ _. Begun setup unset) (start setup unset)
start-Begun_example =
    start-Begun setup unset
      (record {
        pagefile = refl;
        logfile = refl;
        at_address = refl;
        semaphore = refl;
        usr1 = refl;
        usr2 = refl;
        int = refl;
      })
      refl (λ i l. refl)

page_fault-Evicted_example : Returns (λ _. Evicted crowded 20) (page_fault lp64 lfu crowded)
page_fault-Evicted_example =
    page_fault-Evicted lp64 crowded 20 crowded-IsValid crowded-IsRequest (omega arith)

counts-InRange_example :
    Returns
      (λ _ w. (w.counts 0 ≡ 4 + reads_from 0 accesses) × (w.counts 0 < int_min))
      (run (config lfu) accesses crowded)
unfolding length
counts-InRange_example =
    counts-InRange (config lfu) accesses 0 crowded crowded-IsValid (omega arith) (inr fine-Attaches)
      (omega arith) (omega arith)
