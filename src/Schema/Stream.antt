-- ===== src/Schema/Stream.antt =====
-- src/schema/stream_optimizer.cpp: what a stream of packets of one schema saves.
pub mod Batch
pub mod Changes
pub mod Delta
pub mod Frames
pub mod Sender
