-- ===== src/Terminal.antt =====
-- src/terminal_state_v2.rs and src/terminal_sync.rs: the state of a terminal, its validation, and its
-- reliable synchronisation with a client.
pub mod Enums
pub mod State
pub mod Checks
pub mod Tables
pub mod Rows
pub mod Screens
pub mod Pages
pub mod Diff
pub mod Window
pub mod Sound
pub mod Valid
pub mod Returns
pub mod Total
pub mod Equality
pub mod RoundTrip
pub mod Protocol
pub mod Agreement
pub mod Converges
pub mod Tests
