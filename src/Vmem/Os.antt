-- ===== src/Vmem/Os.antt =====
-- What the operating system answers when a process maps the shared memory: `shm_open`,
-- `ftruncate`, `mmap`, and `sem_init`.
use suse_vm.Prelude.{ℤ}

-- What `mmap` returns: NULL, `MAP_FAILED`, or an address.
pub data Mapping : Type 0 where
  null map_failed mapped : Mapping

pub record OsReply : Type 0 where
  pub fd : ℤ
  pub truncated : ℤ
  pub mapping : Mapping
  pub sem_result : ℤ
