-- ===== src/Core.antt =====
-- src/core: byte buffers, byte order, the packet encoder and the packet reader.
pub mod View
pub mod Buffer
pub mod Endian
pub mod Builder
pub mod Encoder
pub mod Reader
pub mod Packet
pub mod BufferPool
