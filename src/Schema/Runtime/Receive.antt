-- ===== src/Schema/Runtime/Receive.antt =====
-- `receive` and its variants of src/schema/schema_runtime.cpp.
use keydrop.Base.{ℕ, ltb, ◌==◌, not, List, length, get_or}
use keydrop.Base.{if◌then◌else◌, Option, none, some, read_u16_le, Text}
use keydrop.Core.Endian.{Host}
use keydrop.Core.Reader.{PacketReader}
use keydrop.Schema.Types.{SchemaDef}
use keydrop.Schema.Layout.{PacketLayout}
use keydrop.Schema.Registry.{
  find_by_name, find_by_message_id, find_layout_by_message_id, find_fast_codec_by_message_id,
}
use keydrop.Schema.Values.{NamedPayload, OrderedPayload}
use keydrop.Schema.Validator.{is_accepted, validate_message_id}
use keydrop.Schema.Fast
use keydrop.Schema.Fast.{FastCodecCode, FastDecodedField, batch_marker}
use keydrop.Schema.PayloadPool.{acquire_ordered, release_ordered}
use keydrop.Reliability.Keydrop.{check_layout}
use keydrop.Schema.Runtime.{
  Outcome, done, failed, schema_not_found, schema_invalid, schema_mismatch, packet_too_small,
  corruption_detected, decode_failed,
}
use keydrop.Schema.Runtime.Packets.{finish_named, decode_packet, restore}
use keydrop.Schema.Runtime.State.{SchemaRuntime}

abbrev pub Received : Type 0
Received = Outcome (Text × NamedPayload)

module _ (host : Host) where
  -- The packet that is checked and decoded. The container of the values that is leased has room
  -- for all of them from the start.
  unfoldable pub decode_checked :
      SchemaRuntime → SchemaDef → PacketLayout → List ℕ → Received × SchemaRuntime
  decode_checked rt schema layout packet =
      let (slot, pool) = acquire_ordered rt.payload_pool_ (length layout.fields) in
      let (received, d) =
        decode_packet host schema layout (finish_named host schema layout) packet rt.dictionary_ in
      if not (check_layout packet layout).ok
      then (failed corruption_detected, rt)
      else (received, record rt { dictionary_ = d; payload_pool_ = release_ordered pool slot })

  unfoldable pub receive_with_schema : SchemaRuntime → SchemaDef → List ℕ → Received × SchemaRuntime
  unfolding decode_checked
  receive_with_schema rt schema packet =
      let (restored, pool) = restore rt.optimizer_config_ schema packet rt.buffer_pool_ in
      let rt' : SchemaRuntime = record rt { buffer_pool_ = pool } in
      elim restored [
        | failed code ↦ (failed code, rt')
        | done plain ↦ elim (find_layout_by_message_id rt.registry_ schema.message_id) [
          | none ↦ (failed schema_invalid, rt')
          | some layout ↦ decode_checked rt' schema layout plain
        ]
      ]

  unfoldable pub receive : SchemaRuntime → List ℕ → Received × SchemaRuntime
  unfolding receive_with_schema
  receive rt packet =
      if ltb (length packet) 2
      then (failed packet_too_small, rt)
      else elim (find_by_message_id rt.registry_ (read_u16_le packet 0)) [
        | none ↦ (failed schema_not_found, rt)
        | some schema ↦
            if not (is_accepted (validate_message_id schema (read_u16_le packet 0)))
            then (failed schema_mismatch, rt)
            else receive_with_schema rt schema packet
      ]

  unfoldable pub receive_as : SchemaRuntime → Text → List ℕ → Received × SchemaRuntime
  unfolding receive_with_schema
  receive_as rt name packet =
      if ltb (length packet) 2
      then (failed packet_too_small, rt)
      else elim (find_by_name rt.registry_ name) [
        | none ↦ (failed schema_not_found, rt)
        | some schema ↦
            if not (is_accepted (validate_message_id schema (read_u16_le packet 0)))
            then (failed schema_mismatch, rt)
            else receive_with_schema rt schema packet
      ]

  -- What follows the loop of `receive_ordered`: nothing is tested.
  unfoldable pub finish_ordered :
      SchemaDef → OrderedPayload → PacketReader → Outcome (Text × OrderedPayload)
  finish_ordered schema ordered r = done (schema.schema_name, ordered)

  -- `receive_ordered` with the schema and its layout.
  unfoldable pub decode_ordered :
      SchemaRuntime
      → SchemaDef
      → PacketLayout
      → List ℕ
      → Outcome (Text × OrderedPayload) × SchemaRuntime
  unfolding finish_ordered
  decode_ordered rt schema layout packet =
      let (restored, pool) = restore rt.optimizer_config_ schema packet rt.buffer_pool_ in
      let rt' : SchemaRuntime = record rt { buffer_pool_ = pool } in
      elim restored [
        | failed code ↦ (failed code, rt')
        | done plain ↦
            let (received, d) =
              decode_packet host schema layout (finish_ordered schema) plain rt.dictionary_ in
            (received, record rt' { dictionary_ = d })
      ]

  unfoldable pub receive_ordered :
      SchemaRuntime → List ℕ → Outcome (Text × OrderedPayload) × SchemaRuntime
  unfolding decode_ordered
  receive_ordered rt packet =
      if ltb (length packet) 2
      then (failed packet_too_small, rt)
      else elim (find_by_message_id rt.registry_ (read_u16_le packet 0)) [
        | none ↦ (failed schema_not_found, rt)
        | some schema ↦ elim (find_layout_by_message_id rt.registry_ schema.message_id) [
          | none ↦ (failed schema_invalid, rt)
          | some layout ↦ decode_ordered rt schema layout packet
        ]
      ]

  -- The fast path changes no state. The name of the schema, `out_count`, and the slots.
  unfoldable pub fast_decode :
      (ℕ → ℕ)
      → SchemaRuntime
      → List ℕ
      → Option (List FastDecodedField)
      → Outcome (Text × ℕ × Option (List FastDecodedField))
  fast_decode widen rt packet slots =
      if ltb (length packet) 2
      then failed packet_too_small
      else if get_or packet 0 0 == batch_marker
      then failed decode_failed
      else elim (find_fast_codec_by_message_id rt.registry_ (read_u16_le packet 0)) [
        | none ↦ failed schema_not_found
        | some codec ↦
            let decoded = Fast.decode host widen codec rt.dictionary_ packet slots in
            elim decoded.code [
              | FastCodecCode.ok ↦
                  done (codec.schema.schema_name, decoded.out_count, decoded.fields)
              | FastCodecCode.message_id_mismatch ↦ failed schema_mismatch
              | _ ↦ failed decode_failed
            ]
      ]
