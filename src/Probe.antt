-- ===== src/Probe.antt =====
-- The earlier version of the simulator in probe/, with LFU, FIFO and CLOCK.
pub mod State
pub mod Cells
pub mod Replace
pub mod Paging
pub mod Valid
pub mod Lfu
pub mod Picked
pub mod Moves
pub mod Exchange
pub mod Served
pub mod Full
pub mod Unused
pub mod Fault
pub mod Least
pub mod Access
pub mod Ready
pub mod Touch
pub mod Refine
pub mod Counts
pub mod Boot
pub mod Started
