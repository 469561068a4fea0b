-- ===== src/Transport.antt =====
-- src/transport: the queue in front of a transport. What a transport does is the client's.
pub mod Scheduler
