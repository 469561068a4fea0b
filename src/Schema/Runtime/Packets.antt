-- ===== src/Schema/Runtime/Packets.antt =====
-- How src/schema/schema_runtime.cpp turns the values of a schema into a packet, and a packet into
-- values: the parts of the methods that use neither the registry nor the payload pool. What a
-- buffer that is leased holds is moved out, or its capacity is at least what it held.
pub mod Optimizes
pub mod Shortens
pub mod Exchange
use keydrop.Base.{ℕ, max, not, Bool, true, false, ◌&&◌, List, length}
use keydrop.Base.{if◌then◌else◌, Result, ok, out_of_range, Text}
use keydrop.Core.Endian.{Host}
use keydrop.Core.Buffer.{Buffer, empty_buffer}
use keydrop.Core.BufferPool.{BufferPool, acquire, release}
use keydrop.Core.Encoder
use keydrop.Core.Encoder.{Encoder}
use keydrop.Core.Reader
use keydrop.Core.Reader.{PacketReader}
use keydrop.Schema.Types.{SchemaDef}
use keydrop.Schema.Layout.{PacketLayout}
use keydrop.Schema.Values.{OrderedPayload, NamedPayload}
use keydrop.Schema.Mapper.{is_mapped, map_ordered_to_named}
use keydrop.Schema.Validator.{is_accepted, validate_payload_values}
use keydrop.Schema.Dictionary.{AdaptiveDictionary}
use keydrop.Schema.Optimizer.{
  RuntimeOptimizerConfig, optimize_packet, deoptimize_packet, is_optimized_packet,
}
use keydrop.Schema.Stream.Frames.{blank_encoder}
use keydrop.Schema.Runtime.{SchemaRuntimeCode, Outcome, done, failed}
use keydrop.Schema.Runtime.{schema_mismatch, decode_failed, corruption_detected}
use keydrop.Schema.Runtime.Codec.{encode_layout, decode_layout, estimate_encoded_packet_size}

-- A leased buffer that holds the bytes.
abbrev pub filled : Buffer → List ℕ → Buffer
filled buffer bytes = record { bytes_ = bytes; capacity_ = max buffer.capacity_ (length bytes) }

-- What follows the encoding of the values.
unfoldable pub shorten :
    SchemaDef → List ℕ → RuntimeOptimizerConfig → BufferPool → Outcome (List ℕ) × BufferPool
shorten schema encoded config pool =
    let (optimized, leased) = acquire pool in
    let (result, output) = optimize_packet schema encoded optimized.bytes_ config in
    if not (config.enabled && config.enable_zero_value_omission)
    then (done encoded, pool)
    else if not result.ok
    then (failed decode_failed, release leased (filled optimized output))
    else if result.applied
    then (done output, release leased empty_buffer)
    else (done encoded, release leased (filled optimized output))

module _ (host : Host) (schema : SchemaDef) (layout : PacketLayout) where
  -- The bytes of an encoder that is done.
  unfoldable pub seal : Result Encoder × AdaptiveDictionary → Result (List ℕ) × AdaptiveDictionary
  seal (out_of_range, d) = (out_of_range, d)
  seal (ok e, d) = (ok (Encoder.take_buffer e).0.bytes_, d)

  -- What follows the id.
  unfoldable pub encode_fields_behind :
      Result Encoder → OrderedPayload → AdaptiveDictionary → Result (List ℕ) × AdaptiveDictionary
  unfolding seal
  encode_fields_behind out_of_range values d = (out_of_range, d)
  encode_fields_behind (ok e) values d = seal (encode_layout host layout.fields values e d)

  -- The bytes of the id and of the values; the exception is that of the encoder.
  unfoldable pub encode_packet :
      OrderedPayload → AdaptiveDictionary → Result (List ℕ) × AdaptiveDictionary
  unfolding encode_fields_behind
  encode_packet values d =
      let e = Encoder.reserve blank_encoder (estimate_encoded_packet_size layout values) in
      encode_fields_behind (Encoder.write_u16 host e schema.message_id) values d

  unfoldable pub encode_ordered_with_schema :
      OrderedPayload
      → RuntimeOptimizerConfig
      → AdaptiveDictionary
      → BufferPool
      → Result (Outcome (List ℕ)) × AdaptiveDictionary × BufferPool
  unfolding shorten encode_packet
  encode_ordered_with_schema values config d pool =
      let (encoded, d') = encode_packet values d in
      if not (is_accepted (validate_payload_values schema values))
      then (ok (failed schema_mismatch), d, pool)
      else elim encoded [
        | out_of_range ↦ (out_of_range, d', pool)
        | ok bytes ↦
            let (outcome, pool') = shorten schema bytes config pool in (ok outcome, d', pool')
      ]

  -- What follows the loop of `receive_with_schema`.
  unfoldable pub finish_named : OrderedPayload → PacketReader → Outcome (Text × NamedPayload)
  finish_named ordered r =
      let (code, named) = map_ordered_to_named schema ordered in
      if not (is_accepted (validate_payload_values schema ordered))
      then failed schema_mismatch
      else if not (is_mapped code)
      then failed schema_mismatch
      else if not (Reader.empty r)
      then failed corruption_detected
      else done (schema.schema_name, named)

  -- The loop over the fields behind the id, with the exception that ends it caught.
  unfoldable pub decode_packet :
      {A : Type 0}
      → (OrderedPayload → PacketReader → Outcome A)
      → List ℕ
      → AdaptiveDictionary
      → Outcome A × AdaptiveDictionary
  decode_packet finish packet d =
      let (id, r) = Reader.read_u16 host (Reader.create packet) in
      let (values, r', d') = decode_layout host layout.fields d r in
      elim id [
        | out_of_range ↦ (failed decode_failed, d)
        | ok n ↦ elim values [
          | out_of_range ↦ (failed decode_failed, d')
          | ok ordered ↦ (finish ordered r', d')
        ]
      ]

-- The packet that is decoded, if it can be restored, and the pool behind the lease.
unfoldable pub restore :
    RuntimeOptimizerConfig → SchemaDef → List ℕ → BufferPool → Outcome (List ℕ) × BufferPool
restore config schema packet pool =
    let (temp, leased) = acquire pool in
    let (result, output) = deoptimize_packet schema packet temp.bytes_ in
    if not (config.enabled && is_optimized_packet packet)
    then (done packet, pool)
    else if not result.ok
    then (failed decode_failed, release leased (filled temp output))
    else (done output, release leased (filled temp output))
