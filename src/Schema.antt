-- ===== src/Schema.antt =====
-- src/schema: field types and schemas, packet layouts, the packet optimizer.
pub mod Types
pub mod Layout
pub mod Optimizer
pub mod Registry
pub mod Dictionary
pub mod Values
pub mod Mapper
pub mod Validator
pub mod Fast
pub mod Stream
pub mod Runtime
pub mod PayloadPool
pub mod Profiler
