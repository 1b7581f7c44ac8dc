-- ===== src/Manager.antt =====
-- The memory manager process of working/mmanage.c: page replacement, paging, signals, start.
pub mod Valid
pub mod Replace
pub mod Sweep
pub mod Clock
pub mod Chances
pub mod Paging
pub mod Moves
pub mod Exchange
pub mod Served
pub mod Unused
pub mod Fault
pub mod Fifo
pub mod Signals
pub mod Main
pub mod Started
pub mod Boot
