-- ===== src/Schema/Runtime.antt =====
-- src/schema/schema_runtime.cpp: the object that an application holds. The texts of the messages
-- are left out, and so is what the output parameters hold after a call that fails.
pub mod Runs
pub mod Codec
pub mod Packets
pub mod State
pub mod Send
pub mod Receive
pub mod Streams
pub mod Json
pub mod Cache
pub mod Exchange
pub mod Types
pub mod Crc
pub mod Explicit
use keydrop.Base.{◌≡◌, refl, ◌⊎◌, inl, inr}

pub data SchemaRuntimeCode : Type 0 where
  ok schema_not_found schema_invalid schema_mismatch mapping_failed : SchemaRuntimeCode
  decode_failed corruption_detected synchronization_failed packet_too_small : SchemaRuntimeCode
  trailing_packet_data json_conversion_failed : SchemaRuntimeCode

-- What a method gives: the code `ok` with its outputs, or another code.
pub data Outcome (A : Type 0) : Type 0 where
  done : A → Outcome A
  failed : SchemaRuntimeCode → Outcome A

pub Outcome-cases :
    {A : Type 0} (x : Outcome A)
    → ((c : SchemaRuntimeCode) × (x ≡ failed c)) ⊎ ((a : A) × (x ≡ done a))
Outcome-cases (failed c) = inl (c, refl)
Outcome-cases (done a) = inr (a, refl)
