-- ===== src/Schema/Runtime/Send.antt =====
-- `send`, `send_ordered` and `fast_encode` of src/schema/schema_runtime.cpp.
use keydrop.Base.{ℕ, max, List, length, Option, none, some, Result, ok, out_of_range, Text}
use keydrop.Core.Endian.{Host}
use keydrop.Core.Buffer.{Buffer}
use keydrop.Schema.Types.{SchemaDef}
use keydrop.Schema.Layout.{PacketLayout}
use keydrop.Schema.Registry.{find_fast_codec_by_name}
use keydrop.Schema.Values.{NamedPayload, OrderedPayload}
use keydrop.Schema.Mapper.{FieldMapperCode, map_named_to_ordered}
use keydrop.Schema.Fast
use keydrop.Schema.Fast.{FastCodecCode}
use keydrop.Schema.PayloadPool.{Container, acquire_ordered, release_ordered}
use keydrop.Schema.Profiler.{Ratios}
use keydrop.Schema.Stream.Changes.{Floats}
use keydrop.Schema.Runtime.{Outcome, done, failed, mapping_failed, schema_not_found}
use keydrop.Schema.Runtime.Packets.{encode_ordered_with_schema}
use keydrop.Schema.Runtime.State.{SchemaRuntime, find_cached, profiled}

-- A container that holds values, which were put into the container of a lease.
abbrev pub holding : {A : Type 0} → Container A → List A → Container A
holding slot values = record { held = values; room = max slot.room (length values) }

module _ (host : Host) where
  -- The packet of values in the order of the schema, from the state of the runtime.
  unfoldable pub encode_values :
      SchemaRuntime
      → SchemaDef × PacketLayout
      → OrderedPayload
      → Result (Outcome (List ℕ)) × SchemaRuntime
  encode_values rt (schema, layout) values =
      let (sent, d, pool) =
        encode_ordered_with_schema host schema layout values rt.optimizer_config_ rt.dictionary_
          rt.buffer_pool_ in
      (sent, record rt { dictionary_ = d; buffer_pool_ = pool })

  unfoldable pub send_ordered :
      SchemaRuntime → Text → OrderedPayload → Result (Outcome (List ℕ)) × SchemaRuntime
  unfolding encode_values
  send_ordered rt name values =
      let (found, rt') = find_cached rt name in
      elim found [
        | failed code ↦ (ok (failed code), rt')
        | done entry ↦ encode_values rt' entry values
      ]

module _ (host : Host) (floats : Floats) (at_least : Ratios) where
  -- A packet that was encoded is told to the profiler.
  unfoldable pub after_encoding :
      Text
      → NamedPayload
      → Result (Outcome (List ℕ)) × SchemaRuntime
      → Result (Outcome (List ℕ)) × SchemaRuntime
  after_encoding name payload (ok (done packet), rt) =
      (ok (done packet), profiled floats at_least rt name payload)
  after_encoding name payload (ok (failed code), rt) = (ok (failed code), rt)
  after_encoding name payload (out_of_range, rt) = (out_of_range, rt)

  -- What follows the mapping: the payload that is leased is given back when the method ends.
  unfoldable pub encode_mapped :
      SchemaRuntime
      → Text
      → NamedPayload
      → SchemaDef × PacketLayout
      → FieldMapperCode × OrderedPayload
      → Result (Outcome (List ℕ)) × SchemaRuntime
  unfolding encode_values after_encoding
  encode_mapped rt name payload (schema, layout) (code, ordered) =
      let (slot, pool) = acquire_ordered rt.payload_pool_ (length schema.fields) in
      let back : SchemaRuntime = record rt {
        payload_pool_ = release_ordered pool (holding slot ordered);
      } in
      elim code [
        | FieldMapperCode.ok ↦
            after_encoding name payload (encode_values host back (schema, layout) ordered)
        | _ ↦ (ok (failed mapping_failed), back)
      ]

  -- `send` with the schema.
  unfoldable pub send_mapped :
      SchemaRuntime
      → Text
      → NamedPayload
      → SchemaDef × PacketLayout
      → Result (Outcome (List ℕ)) × SchemaRuntime
  unfolding encode_mapped
  send_mapped rt name payload entry =
      encode_mapped rt name payload entry (map_named_to_ordered entry.0 payload)

  unfoldable pub send :
      SchemaRuntime → Text → NamedPayload → Result (Outcome (List ℕ)) × SchemaRuntime
  unfolding send_mapped
  send rt name payload =
      let (found, rt') = find_cached rt name in
      elim found [
        | failed code ↦ (ok (failed code), rt')
        | done entry ↦ send_mapped rt' name payload entry
      ]

-- The fast path changes no state. `none` is nullptr; what `out_packet` holds comes back with a code.
unfoldable pub fast_encode :
    SchemaRuntime → Text → Option OrderedPayload → Buffer → Result (Outcome Buffer)
fast_encode rt name values out_packet = elim (find_fast_codec_by_name rt.registry_ name) [
  | none ↦ ok (failed schema_not_found)
  | some codec ↦
      let (code, written) = Fast.encode codec values out_packet in
      elim code [
        | FastCodecCode.ok ↦ elim written [ ok b ↦ ok (done b) | out_of_range ↦ out_of_range ]
        | _ ↦ ok (failed mapping_failed)
      ]
]
