-- ===== src/Transfer.antt =====
-- src/terminal_streaming.rs: the assembly of transfers from their chunks.
pub mod Assembler
pub mod Progress
pub mod Sender
pub mod Complete
pub mod Tests
