-- ===== src/Client.antt =====
-- The demo application of working/vmappl.c, a client of the virtual memory.
pub mod Program
pub mod Refine
pub mod Appl
pub mod Fill
pub mod Exchange
pub mod Scan
pub mod Partition
pub mod Sort
pub mod Demo
