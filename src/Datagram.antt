-- ===== src/Datagram.antt =====
-- src/terminal_datagram_v3.rs: viewport transfers in datagrams.
pub mod Message
pub mod Prepare
pub mod Ranges
pub mod Varint
pub mod Attempts
pub mod Packets
pub mod Prepared
pub mod Tests
