-- ===== src/Payload.antt =====
-- src/compression.rs: payloads that are compressed where it pays.
pub mod Encoded
pub mod Files
pub mod RoundTrip
pub mod RunLength
pub mod Tests
