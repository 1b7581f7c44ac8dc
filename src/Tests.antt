-- ===== src/Tests.antt =====
-- Runs of the simulator at concrete inputs, and each theorem with hypotheses at an input that
-- meets them.
pub mod Worlds
pub mod Drivers
mod Runs
mod Witnesses
mod Calls
mod Waiting
mod Earlier
mod Probes
mod Clients
mod Schedules
mod Drives
