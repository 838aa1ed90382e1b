-- ===== src/Lease.antt =====
-- src/terminal.rs: the input lease of a terminal.
pub mod State
pub mod Acquire
pub mod Commands
pub mod Effects
pub mod History
pub mod Fencing
pub mod Once
pub mod Authority
pub mod Tests
