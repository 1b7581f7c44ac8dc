-- ===== src/Vmem/State.antt =====
-- The structures of working/vmem.h and working/mmanage.h, and the whole state that the memory
-- manager and its client share.
use suse_vm.Prelude.{ℕ, Bool, List, ℤ}

-- `struct pt_entry`
pub record PtEntry : Type 0 where
  pub flags : ℕ
  pub frame : ℤ

-- `struct vmem_adm_struct`. The semaphore is its value. `bitmap` is its one word, read as an int:
-- the program never reads it by that name, but it lies beside `pf_count` at `entries[-1]`.
pub record Adm : Type 0 where
  pub size : ℕ
  pub mmanage_pid : ℕ
  pub shm_id : ℤ
  pub sema : ℕ
  pub req_pageno : ℤ
  pub next_alloc_idx : ℕ
  pub pf_count : ℕ
  pub bitmap : ℤ

-- `struct pt_struct`, an array as a function of the index
pub record Pt : Type 0 where
  pub entries : ℕ → PtEntry
  pub framepage : ℕ → ℤ

-- `struct vmem_struct`; `cells` is the member `data`
pub record Vmem : Type 0 where
  pub adm : Adm
  pub pt : Pt
  pub cells : ℕ → ℤ

-- The open page file: its ints, how many there are, the position in ints, and which ints the
-- medium fails to transfer.
pub record Pagefile : Type 0 where
  pub ints : ℕ → ℤ
  pub length : ℕ
  pub position : ℕ
  pub broken : ℕ → Bool

-- `struct logevent`
pub record LogEvent : Type 0 where
  pub req_pageno : ℤ
  pub replaced_page : ℤ
  pub alloc_frame : ℤ
  pub pf_count : ℕ
  pub g_count : ℕ

-- What arrives in `signal_number`; `none_pending` is 0.
pub data Signal : Type 0 where
  none_pending sigusr1 sigusr2 sigint : Signal
  other_signal : ℕ → Signal

-- The globals of mmanage.c: the shared memory, the page file, what was logged (newest first),
-- and the signal number; and of vmaccess.c, whether its `vmem` is still NULL.
pub record World : Type 0 where
  pub vmem : Vmem
  pub pagefile : Pagefile
  pub logfile : List LogEvent
  pub signal_number : Signal
  pub attached : Bool
