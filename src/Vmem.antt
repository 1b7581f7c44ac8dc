-- ===== src/Vmem.antt =====
-- The shared memory of working/vmem.h, with the files that the memory manager of
-- working/mmanage.c keeps open: sizes, flags, structures, and the checked accesses to them.
pub mod Sizes
pub mod Flags
pub mod FlagSets
pub mod State
pub mod Os
pub mod Run
pub mod Cells
pub mod Pagefile
