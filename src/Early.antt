-- ===== src/Early.antt =====
-- The first version of the simulator, in Aufgabe3/.
pub mod Replace
pub mod Paging
pub mod Access
pub mod Fault
pub mod Race
pub mod Boot
pub mod First
pub mod Appl
pub mod Resident
pub mod Requests
pub mod Stored
pub mod ReadTest
pub mod Demo
