-- ===== src/Stream.antt =====
-- src/stream_channels.rs: the identity of a stream.
pub mod Request
pub mod Channel
pub mod Identity
pub mod Tests
