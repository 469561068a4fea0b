-- ===== src/Schema/Mapper.antt =====
-- src/schema/field_mapper.cpp: payloads by name and in the order of a schema. The texts of the
-- messages are left out.
pub mod RoundTrip
use keydrop.Base.{
  ℕ, not, ltb, ◌==◌, Bool, true, false, ◌||◌, ◌&&◌, List, [], ◌∷◌, none, some, length, replicate,
}
use keydrop.Base.{if◌then◌else◌, Result, out_of_range, Text, text_eq, text_key, find, assign}
use keydrop.Core.Endian.{Host}
use keydrop.Core.Encoder.{Encoder}
use keydrop.Schema.Types.{FieldDef, SchemaDef}
use keydrop.Schema.Values
use keydrop.Schema.Values.{
  FieldValue, type_of, same_type, NamedPayload, OrderedPayload, write_value,
}

pub data FieldMapperCode : Type 0 where
  ok missing_required_field unknown_extra_field : FieldMapperCode
  field_type_mismatch ordered_value_count_mismatch : FieldMapperCode

-- `FieldMapperResult::ok`
unfoldable pub is_mapped : FieldMapperCode → Bool
is_mapped ok = true
is_mapped _ = false

-- A slot that is not filled yet.
abbrev pub blank : FieldValue
blank = FieldValue.u8 0

-- The loop over the fields, with what `out_ordered_payload` holds from its first field on.
unfoldable pub map_fields : List FieldDef → NamedPayload → FieldMapperCode × OrderedPayload
map_fields [] named = (ok, [])
map_fields (field ∷ rest) named =
    let (code, values) = map_fields rest named in
    elim (find field.name named) [
      | none ↦ (missing_required_field, replicate (length (field ∷ rest)) blank)
      | some value ↦
          if not (same_type (type_of value) field.type)
          then (field_type_mismatch, replicate (length (field ∷ rest)) blank)
          else (code, value ∷ values)
    ]

unfoldable pub is_known : List FieldDef → Text → Bool
is_known [] name = false
is_known (field ∷ rest) name = text_eq field.name name || is_known rest name

unfoldable pub all_known : List FieldDef → NamedPayload → Bool
all_known fields [] = true
all_known fields ((name, value) ∷ rest) = is_known fields name && all_known fields rest

unfoldable pub map_named_to_ordered : SchemaDef → NamedPayload → FieldMapperCode × OrderedPayload
map_named_to_ordered schema named =
    let (code, values) = map_fields schema.fields named in
    elim code [
      | ok ↦
          if ltb (length schema.fields) (length named) && not (all_known schema.fields named)
          then (unknown_extra_field, values)
          else (ok, values)
      | missing_required_field ↦ (missing_required_field, values)
      | unknown_extra_field ↦ (unknown_extra_field, values)
      | field_type_mismatch ↦ (field_type_mismatch, values)
      | ordered_value_count_mismatch ↦ (ordered_value_count_mismatch, values)
    ]

-- The loop over fields and values of one length, with the payload filled so far.
unfoldable pub name_values :
    List FieldDef → OrderedPayload → NamedPayload → FieldMapperCode × NamedPayload
name_values (field ∷ fields) (value ∷ values) named =
    if not (same_type (type_of value) field.type)
    then (field_type_mismatch, named)
    else name_values fields values (assign field.name value named)
name_values _ _ named = (ok, named)

unfoldable pub map_ordered_to_named : SchemaDef → OrderedPayload → FieldMapperCode × NamedPayload
map_ordered_to_named schema ordered =
    if not (length ordered == length schema.fields)
    then (ordered_value_count_mismatch, [])
    else name_values schema.fields ordered []

unfoldable pub write_values : Host → Encoder → OrderedPayload → Result Encoder
write_values host e [] = Result.ok e
write_values host e (value ∷ rest) = elim (write_value host e value) [
  | Result.ok e' ↦ write_values host e' rest
  | out_of_range ↦ out_of_range
]

unfoldable pub encode_named_payload :
    Host → SchemaDef → NamedPayload → Encoder → FieldMapperCode × Result Encoder
encode_named_payload host schema named e =
    let (code, ordered) = map_named_to_ordered schema named in
    elim code [
      | ok ↦ (ok, write_values host e ordered)
      | missing_required_field ↦ (missing_required_field, Result.ok e)
      | unknown_extra_field ↦ (unknown_extra_field, Result.ok e)
      | field_type_mismatch ↦ (field_type_mismatch, Result.ok e)
      | ordered_value_count_mismatch ↦ (ordered_value_count_mismatch, Result.ok e)
    ]
