-- ===== src/Writer.antt =====
-- src/queued_writer.rs: the bounded hand-over to the writer of a stream.
pub mod Queue
pub mod Drained
pub mod Tests
