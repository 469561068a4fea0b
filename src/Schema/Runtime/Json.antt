-- ===== src/Schema/Runtime/Json.antt =====
-- `send_json` and `receive_json` of src/schema/schema_runtime.cpp. The conversions of floats, on bit
-- patterns, are the machine's. What a call that fails leaves in the payload that is leased is left
-- out: the container is given back as it was taken.
pub mod Converts
use keydrop.Base.{ℕ, ◌+◌, ◌^◌, ltb, leb, Bool, true, false, ◌&&◌, List, [], ◌∷◌, Option, none, some}
use keydrop.Base.{if◌then◌else◌, length, Text, text_key, find, assign, Result, ok, out_of_range}
use keydrop.Base.Int.{ℤ, pos, negsuc}
use keydrop.Core.Endian.{Host}
use keydrop.Schema.Types.{FieldType, FieldDef}
use keydrop.Schema.Values
use keydrop.Schema.Values.{FieldValue, NamedPayload}
use keydrop.Schema.Mapper.{all_known, is_known}
use keydrop.Schema.Registry.{find_by_name}
use keydrop.Schema.PayloadPool.{acquire_named, release_named}
use keydrop.Schema.Profiler.{Ratios}
use keydrop.Schema.Stream.Changes.{Floats}
use keydrop.Schema.Runtime.{Outcome, done, failed, schema_not_found, json_conversion_failed}
use keydrop.Schema.Runtime.State.{SchemaRuntime}
use keydrop.Schema.Runtime.Send.{send, holding}
use keydrop.Schema.Runtime.Receive.{receive}

pub data JsonValue : Type 0 where
  integer : ℤ → JsonValue
  decimal : ℕ → JsonValue
  string : Text → JsonValue
  bytes : List ℕ → JsonValue

abbrev pub JsonObject : Type 0
JsonObject = List (Text × JsonValue)

-- The conversions between numbers of 64 bits and floats.
pub record Conversions : Type 0 where
  pub f32_of_integer : ℤ → ℕ
  pub f64_of_integer : ℤ → ℕ
  pub f32_of_f64 : ℕ → ℕ
  pub f64_of_f32 : ℕ → ℕ

-- An integer from 0 up to the greatest one of a type.
unfoldable pub natural_below : ℕ → ℤ → Option ℕ
natural_below limit (pos n) = if ltb n limit then some n else none
natural_below limit (negsuc n) = none

-- An integer from -half up to half - 1.
unfoldable pub within : ℕ → ℤ → Bool
within half (pos n) = ltb n half
within half (negsuc n) = ltb n half

module _ (conversions : Conversions) where
  -- `none` is `false`.
  unfoldable pub json_value_to_field_value : JsonValue → FieldType → Option FieldValue
  unfolding natural_below within
  json_value_to_field_value (JsonValue.integer i) FieldType.u8 = elim (natural_below (2 ^ 8) i) [
    | none ↦ none
    | some n ↦ some (FieldValue.u8 n)
  ]
  json_value_to_field_value (JsonValue.integer i) FieldType.u16 = elim (natural_below (2 ^ 16) i) [
    | none ↦ none
    | some n ↦ some (FieldValue.u16 n)
  ]
  json_value_to_field_value (JsonValue.integer i) FieldType.u32 = elim (natural_below (2 ^ 32) i) [
    | none ↦ none
    | some n ↦ some (FieldValue.u32 n)
  ]
  json_value_to_field_value (JsonValue.integer i) FieldType.i8 =
      if within (2 ^ 7) i then some (FieldValue.i8 i) else none
  json_value_to_field_value (JsonValue.integer i) FieldType.i16 =
      if within (2 ^ 15) i then some (FieldValue.i16 i) else none
  json_value_to_field_value (JsonValue.integer i) FieldType.i32 =
      if within (2 ^ 31) i then some (FieldValue.i32 i) else none
  json_value_to_field_value (JsonValue.integer i) FieldType.f32 =
      some (FieldValue.f32 (conversions.f32_of_integer i))
  json_value_to_field_value (JsonValue.integer i) FieldType.f64 =
      some (FieldValue.f64 (conversions.f64_of_integer i))
  json_value_to_field_value (JsonValue.decimal x) FieldType.f32 =
      some (FieldValue.f32 (conversions.f32_of_f64 x))
  json_value_to_field_value (JsonValue.decimal x) FieldType.f64 = some (FieldValue.f64 x)
  json_value_to_field_value (JsonValue.string s) FieldType.string = some (FieldValue.string s)
  json_value_to_field_value (JsonValue.bytes s) FieldType.bytes = some (FieldValue.bytes s)
  json_value_to_field_value _ _ = none

  unfoldable pub field_value_to_json_value : FieldValue → JsonValue
  field_value_to_json_value (FieldValue.u8 v) = JsonValue.integer (pos v)
  field_value_to_json_value (FieldValue.u16 v) = JsonValue.integer (pos v)
  field_value_to_json_value (FieldValue.u32 v) = JsonValue.integer (pos v)
  field_value_to_json_value (FieldValue.i8 v) = JsonValue.integer v
  field_value_to_json_value (FieldValue.i16 v) = JsonValue.integer v
  field_value_to_json_value (FieldValue.i32 v) = JsonValue.integer v
  field_value_to_json_value (FieldValue.f32 v) = JsonValue.decimal (conversions.f64_of_f32 v)
  field_value_to_json_value (FieldValue.f64 v) = JsonValue.decimal v
  field_value_to_json_value (FieldValue.string s) = JsonValue.string s
  field_value_to_json_value (FieldValue.bytes s) = JsonValue.bytes s

  -- The loop over the fields of the schema, with the payload so far; `none` is a failure.
  unfoldable pub fields_from_json : List FieldDef → JsonObject → NamedPayload → Option NamedPayload
  fields_from_json [] json payload = some payload
  fields_from_json (field ∷ rest) json payload = elim (find field.name json) [
    | none ↦ none
    | some value ↦ elim (json_value_to_field_value value field.type) [
      | none ↦ none
      | some mapped ↦ fields_from_json rest json (assign field.name mapped payload)
    ]
  ]

  -- The loop over the entries of the object.
  unfoldable pub json_all_known : List FieldDef → JsonObject → Bool
  json_all_known fields [] = true
  json_all_known fields ((name, value) ∷ rest) = is_known fields name && json_all_known fields rest

  -- The payload of the object, or the failure.
  unfoldable pub payload_from_json : List FieldDef → JsonObject → Outcome NamedPayload
  unfolding fields_from_json json_all_known
  payload_from_json fields json = elim (fields_from_json fields json []) [
    | none ↦ failed json_conversion_failed
    | some payload ↦
        if json_all_known fields json then done payload else failed json_conversion_failed
  ]

  -- `out_json_payload[name] = value` for each entry.
  unfoldable pub json_from_payload : NamedPayload → JsonObject → JsonObject
  unfolding field_value_to_json_value
  json_from_payload [] json = json
  json_from_payload ((name, value) ∷ rest) json =
      json_from_payload rest (assign name (field_value_to_json_value value) json)

  module _ (host : Host) (floats : Floats) (at_least : Ratios) where
    -- The payload that is leased is given back when the method ends; `send` does not lease one.
    unfoldable pub send_json :
        SchemaRuntime → Text → JsonObject → Result (Outcome (List ℕ)) × SchemaRuntime
    unfolding payload_from_json
    send_json rt name json = elim (find_by_name rt.registry_ name) [
      | none ↦ (ok (failed schema_not_found), rt)
      | some schema ↦
          let (slot, leased) = acquire_named rt.payload_pool_ (length schema.fields) in
          let rt' : SchemaRuntime = record rt { payload_pool_ = leased } in
          elim (payload_from_json schema.fields json) [
            | failed code ↦
                (ok (failed code), record rt' { payload_pool_ = release_named leased slot })
            | done payload ↦
                let (sent, after) = send host floats at_least rt' name payload in
                (
                  sent,
                  record after {
                    payload_pool_ = release_named after.payload_pool_ (holding slot payload);
                  },
                )
          ]
    ]

  unfoldable pub receive_json :
      Host → SchemaRuntime → List ℕ → Outcome (Text × JsonObject) × SchemaRuntime
  unfolding json_from_payload
  receive_json host rt packet =
      let (slot, leased) = acquire_named rt.payload_pool_ 0 in
      let (received, rt') = receive host (record rt { payload_pool_ = leased }) packet in
      elim received [
        | failed code ↦
            (failed code, record rt' { payload_pool_ = release_named rt'.payload_pool_ slot })
        | done (name, payload) ↦ (
          done (name, json_from_payload payload []),
          record rt' { payload_pool_ = release_named rt'.payload_pool_ (holding slot payload) },
        )
      ]
