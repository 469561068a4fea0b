-- ===== src/Schema/Runtime/Types.antt =====
-- What a receiver is given has the types of the schema.
use keydrop.Base.{
  ℕ, ◌≡◌, refl, ap, ◌⊎◌, inl, inr, arith, List, length, true, Bool-cases, Option-cases, some,
  Result, ok, out_of_range, Text, read_u16_le, ltb,
}
use mathlib.Core.Path.{subst}
use keydrop.Core.Endian.{Host}
use keydrop.Core.Reader
use keydrop.Core.Reader.{PacketReader}
use keydrop.Schema.Types.{SchemaDef}
use keydrop.Schema.Layout.{PacketLayout}
use keydrop.Schema.Registry.{find_by_message_id, find_layout_by_message_id}
use keydrop.Schema.Values.{OrderedPayload, NamedPayload}
use keydrop.Schema.Mapper.{FieldMapperCode, is_mapped, map_ordered_to_named}
use keydrop.Schema.Validator.{
  SchemaValidationCode, is_accepted, validate_payload_values, validate_message_id,
}
use keydrop.Schema.Validator.Accepts.{AllFit, validate_payload_values_iff}
use keydrop.Schema.Dictionary.{AdaptiveDictionary}
use keydrop.Schema.Runtime.Codec.{decode_layout}
use keydrop.Reliability.Keydrop.{check_layout}
use keydrop.Schema.Runtime.{Outcome-cases, done, failed}
use keydrop.Schema.Runtime.Packets.{finish_named, decode_packet, restore}
use keydrop.Schema.Runtime.State.{SchemaRuntime}
use keydrop.Schema.Runtime.Receive.{Received, decode_checked, receive_with_schema, receive}

-- The payload names the fields of the schema, with values of their types and within their limits.
abbrev pub Conveys : SchemaDef → Text × NamedPayload → Type 0
Conveys schema (name, payload) =
    (name ≡ schema.schema_name)
    × (vs : OrderedPayload) × AllFit schema.fields vs
    × (map_ordered_to_named schema vs ≡ (FieldMapperCode.ok, payload))

-- A failure conveys nothing.
abbrev Conveying : SchemaDef → Received → Type 0
Conveying schema (done message) = Conveys schema message
Conveying schema (failed code) = Unit {0}

Result-cases : {A : Type 0} (x : Result A) → (x ≡ out_of_range) ⊎ ((a : A) × (x ≡ ok a))
Result-cases out_of_range = inl refl
Result-cases (ok a) = inr (a, refl)

accepted_only_ok : (c : SchemaValidationCode) → is_accepted c ≡ true → c ≡ SchemaValidationCode.ok
unfolding is_accepted
accepted_only_ok c h = ground arith

mapped_only_ok : (c : FieldMapperCode) → is_mapped c ≡ true → c ≡ FieldMapperCode.ok
unfolding is_mapped
mapped_only_ok c h = ground arith

module _ (host : Host) (schema : SchemaDef) (layout : PacketLayout) where
  finish_named-Conveying :
      (vs : OrderedPayload) (r : PacketReader)
      → Conveying schema (finish_named host schema layout vs r)
  unfolding finish_named
  finish_named-Conveying vs r =
      elim (Bool-cases (is_accepted (validate_payload_values schema vs))) [
        | inr refused ↦ rw (refused, finish_named) tt
        | inl accepted ↦ elim (Bool-cases (is_mapped (map_ordered_to_named schema vs).0)) [
          | inr other ↦ rw (accepted, other, finish_named) tt
          | inl mapped ↦ elim (Bool-cases (Reader.empty r)) [
            | inr more ↦ rw (accepted, mapped, more, finish_named) tt
            | inl end ↦
                rw (accepted, mapped, end, finish_named)
                  (
                    refl,
                    vs,
                    (validate_payload_values_iff schema vs).0 (accepted_only_ok _ accepted),
                    ap (λ c. (c, (map_ordered_to_named schema vs).1)) (mapped_only_ok _ mapped),
                  )
          ]
        ]
      ]

  decode_packet-Conveying :
      (packet : List ℕ) (d : AdaptiveDictionary)
      → Conveying schema
          (decode_packet host schema layout (finish_named host schema layout) packet d).0
  unfolding decode_packet
  decode_packet-Conveying packet d =
      let id = Reader.read_u16 host (Reader.create packet) in
      let run = decode_layout host layout.fields d id.1 in
      elim (Result-cases id.0) [
        | inl short ↦ rw (short, decode_packet) tt
        | inr (n, e) ↦ elim (Result-cases run.0) [
          | inl short ↦ rw (e, short, decode_packet) tt
          | inr (vs, e') ↦ rw (e, e', decode_packet) (finish_named-Conveying vs run.1)
        ]
      ]

  decode_checked-Conveying :
      (rt : SchemaRuntime) (packet : List ℕ)
      → Conveying schema (decode_checked host rt schema layout packet).0
  unfolding decode_checked
  decode_checked-Conveying rt packet = elim (Bool-cases (check_layout packet layout).ok) [
    | inl accepted ↦ rw (accepted, decode_checked) (decode_packet-Conveying packet rt.dictionary_)
    | inr refused ↦ rw (refused, decode_checked) tt
  ]

module _ (host : Host) (rt : SchemaRuntime) where
  receive_with_schema-Conveying :
      (schema : SchemaDef) (packet : List ℕ)
      → Conveying schema (receive_with_schema host rt schema packet).0
  unfolding receive_with_schema
  receive_with_schema-Conveying schema packet =
      let run = restore rt.optimizer_config_ schema packet rt.buffer_pool_ in
      let rt' : SchemaRuntime = record rt { buffer_pool_ = run.1 } in
      elim (Outcome-cases run.0) [
        | inl (c, e) ↦ rw (e, receive_with_schema) tt
        | inr (plain, e) ↦
            elim (Option-cases (find_layout_by_message_id rt.registry_ schema.message_id)) [
              | inl absent ↦ rw (e, absent, receive_with_schema) tt
              | inr (layout, there) ↦
                  rw (e, there, receive_with_schema)
                    (decode_checked-Conveying host schema layout rt' plain)
            ]
      ]

  -- What `receive` gives is of the schema that the packet names.
  abbrev Named : List ℕ → Received → Type 0
  Named packet (failed code) = Unit {0}
  Named packet (done message) =
      (schema : SchemaDef) × (find_by_message_id rt.registry_ (read_u16_le packet 0) ≡ some schema)
      × Conveys schema message

  Conveying-Named :
      (packet : List ℕ) (schema : SchemaDef) (r : Received)
      → find_by_message_id rt.registry_ (read_u16_le packet 0) ≡ some schema
      → Conveying schema r
      → Named packet r
  Conveying-Named packet schema (failed code) e h = tt
  Conveying-Named packet schema (done message) e h = (schema, e, h)

  receive-Named : (packet : List ℕ) → Named packet (receive host rt packet).0
  unfolding receive
  receive-Named packet = elim (Bool-cases (ltb (length packet) 2)) [
    | inl short ↦ rw (short, receive) tt
    | inr long ↦ elim (Option-cases (find_by_message_id rt.registry_ (read_u16_le packet 0))) [
      | inl absent ↦ rw (long, absent, receive) tt
      | inr (schema, there) ↦
          elim (Bool-cases (is_accepted (validate_message_id schema (read_u16_le packet 0)))) [
            | inr other ↦ rw (long, there, other, receive) tt
            | inl same ↦
                rw (long, there, same, receive)
                  (Conveying-Named packet schema (receive_with_schema host rt schema packet).0 there
                    (receive_with_schema-Conveying schema packet))
          ]
    ]
  ]

-- What `receive` gives is typed: the name and the payload that come out of any bytes are those of
-- the schema that the registry has for the id in front, and the payload names, for the fields of
-- that schema, values of the fields' types and within their limits.
pub receive-AllFit :
    (host : Host) (rt : SchemaRuntime) (packet : List ℕ) (name : Text) (payload : NamedPayload)
    → (receive host rt packet).0 ≡ done (name, payload)
    → (schema : SchemaDef) × (find_by_message_id rt.registry_ (read_u16_le packet 0) ≡ some schema)
      × (name ≡ schema.schema_name)
      × (vs : OrderedPayload) × AllFit schema.fields vs
      × (map_ordered_to_named schema vs ≡ (FieldMapperCode.ok, payload))
receive-AllFit host rt packet name payload e =
    let (schema, there, message) = subst (Named host rt packet) e (receive-Named host rt packet) in
    let (same, vs, fit, mapped) = message in (schema, there, same, vs, fit, mapped)
