-- ===== src/Negotiation.antt =====
-- src/negotiation.rs, with the messages of src/protocol.rs that it reads and writes.
pub mod Support
pub mod Checks
pub mod Negotiate
pub mod Dependencies
pub mod Entries
pub mod Outcome
pub mod Agreement
pub mod Greatest
pub mod Tests
