-- ===== src/Streaming.antt =====
-- src/terminal_streaming.rs: the state of a terminal sent ahead of the acknowledgements, as keyframes and as
-- differences from a base that the client has kept.
pub mod Fields
pub mod FieldLaws
pub mod Errors
pub mod Patches
pub mod Splice
pub mod RowPatches
pub mod Delta
pub mod Inherit
pub mod RoundTrip
pub mod Generations
pub mod Window
pub mod Updates
pub mod Replica
pub mod Network
pub mod Stale
pub mod Kept
pub mod Sent
pub mod Prepares
pub mod Received
pub mod Carried
pub mod Delivered
pub mod Limits
pub mod Forward
pub mod Tests
