-- ===== src/Reliability.antt =====
-- src/reliability: checksums, corruption checks, and the recovery of packets from a stream.
pub mod Crc
pub mod Check
pub mod Envelope
pub mod Keydrop
pub mod Synchronizer
