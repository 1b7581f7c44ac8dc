-- ===== src/Tests/Worlds.antt =====
-- Concrete states of the simulator: memory before the start, after it, and with all frames filled.
use mathlib.Core.Bool.{false≢true}
use suse_vm.Prelude.{
  pos-injective, sym, ◌∙◌, ap, ℕ, ◌+◌, ◌*◌, ◌≡◌, refl, sym, ◌∙◌, ap, true, false, [], pos, blit,
  ltb, arith, if◌then◌else◌, Bool-cases, inl, inr,
}
use suse_vm.Vmem.Sizes.{void_idx, npages, page_size, virtmem_size}
use suse_vm.Vmem.Flags.{present, has}
use suse_vm.Vmem.State.{PtEntry, Adm, Pagefile, World, none_pending}
use suse_vm.Vmem.Os.{OsReply, mapped}
use suse_vm.Paging.Coherent.{Holds, Coherent}
use suse_vm.Paging.Unload.{blank}
use suse_vm.Manager.Replace.{Algorithm}
use suse_vm.Manager.Main.{Setup}
use suse_vm.Manager.Started.{Coherent-empty}
use suse_vm.Manager.Valid.{IsValid}
use suse_vm.Access.{Config}

abbrev pub fine : OsReply
fine = record { fd = pos 3; truncated = pos 0; mapping = mapped; sem_result = pos 0 }

abbrev pub config : Algorithm → Config
config alg = record { algorithm = alg; os = fine }

abbrev pub setup : Algorithm → Setup
setup alg = record {
  algorithm = alg;
  rand = λ i. 7 * i + 3;
  pagefile_opened = true;
  logfile_opened = true;
  os = fine;
  pid = 100;
  usr1_installed = pos 0;
  usr2_installed = pos 0;
  int_installed = pos 0;
}

abbrev pub sound_file : Pagefile
sound_file = record { ints = λ i. pos i; length = virtmem_size; position = 0; broken = λ _. false }

-- memory before the start, holding anything
abbrev pub raw : World
raw = record {
  vmem = record {
    adm = record {
      size = 7;
      mmanage_pid = 0;
      shm_id = pos 0;
      sema = 9;
      req_pageno = pos 0;
      next_alloc_idx = 3;
      pf_count = 5;
      bitmap = pos 0;
    };
    pt = record { entries = λ _. record { flags = 0; frame = pos 0 }; framepage = λ _. pos 0 };
    cells = λ _. pos 0;
  };
  pagefile = sound_file;
  logfile = [];
  signal_number = none_pending;
  attached = false;
}

abbrev pub new_adm : Adm
new_adm = record {
  size = 0;
  mmanage_pid = 100;
  shm_id = void_idx;
  sema = 0;
  req_pageno = void_idx;
  next_alloc_idx = 0;
  pf_count = 0;
  bitmap = pos 0;
}

-- nothing loaded, page 5 requested
abbrev pub fresh : World
fresh = record raw {
  vmem = record {
    adm = record new_adm { req_pageno = pos 5 };
    pt = record {
      entries = blit (λ _. record { flags = 0; frame = pos 0 }) 0 (λ _. blank) 0 npages;
      framepage = λ _. void_idx;
    };
    cells = λ _. void_idx;
  };
}

pub fresh-IsValid : IsValid fresh
fresh-IsValid = record {
  size_le = omega arith;
  next_lt = omega arith;
  coherent = Coherent-empty (λ _. record { flags = 0; frame = pos 0 }) _ _ _;
  unused = λ f a b. refl;
  counted = λ l. refl;
  file_length = refl;
  file_sound = λ i l. refl;
}

-- the first sixteen pages loaded and used, page `p` in frame `p`, and page 20 requested
abbrev pub full_entries : ℕ → PtEntry
full_entries p = if ltb p 16 then record { flags = 5; frame = pos p } else blank

abbrev pub full : World
full = record raw {
  vmem = record {
    adm = record new_adm { size = 16; req_pageno = pos 20; next_alloc_idx = 3; pf_count = 4 };
    pt = record { entries = full_entries; framepage = λ f. pos f };
    cells = λ i. pos i;
  };
}

full-Holds : (p : ℕ) → ltb p 16 ≡ true → Holds full_entries (λ f. pos f) p p
unfolding has
full-Holds p u = record {
  page_of = refl;
  frame_of = rw u refl;
  loaded = rw u refl;
  page_lt = ground arith;
}

blank_above : (p : ℕ) → ltb p 16 ≡ false → has (full_entries p).flags present ≡ false
unfolding has
blank_above p n = rw n refl

full-Coherent : Coherent (λ f. ltb f 16) full_entries (λ f. pos f) (λ i. pos i) (λ i. pos i)
unfolding has
full-Coherent = record {
  used_lt = λ f u. ground arith;
  filled = λ f u. (f, full-Holds f u);
  resident = λ p l e. elim (Bool-cases (ltb p 16)) [
    | inl u ↦ (p, u, full-Holds p u)
    | inr n ↦ absurd (false≢true (sym (blank_above p n) ∙ e))
  ];
  clean = λ p f k u h e l. ap (λ x. pos (x * page_size + k)) (pos-injective h.page_of);
  small = λ p l. ground arith;
}

pub full-IsValid : IsValid full
full-IsValid = record {
  size_le = omega arith;
  next_lt = omega arith;
  coherent = full-Coherent;
  unused = λ f a b. absurd (omega arith);
  counted = λ l. absurd (omega arith);
  file_length = refl;
  file_sound = λ i l. refl;
}
