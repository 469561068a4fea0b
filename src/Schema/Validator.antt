-- ===== src/Schema/Validator.antt =====
-- src/schema/schema_validator.cpp. The texts of the messages are left out.
pub mod Accepts
use keydrop.Base.{
  ℕ, ◌+◌, not, ltb, ◌==◌, Bool, true, false, ◌||◌, ◌&&◌, List, [], ◌∷◌, Option, none, some, length,
}
use keydrop.Base.{if◌then◌else◌, Text, text_eq}
use keydrop.Schema.Types.{FieldType, FieldDef, SchemaDef}
use keydrop.Schema.Values.{FieldValue, type_of, same_type, OrderedPayload}
use keydrop.Schema.Registry.{SchemaRegistry, find_by_name, find_by_message_id}

pub data SchemaValidationCode : Type 0 where
  ok empty_schema_name empty_fields duplicate_field_name : SchemaValidationCode
  non_contiguous_field_order unsupported_field_type message_id_out_of_range : SchemaValidationCode
  duplicate_schema_name duplicate_message_id message_id_mismatch : SchemaValidationCode
  payload_field_count_mismatch payload_field_type_mismatch : SchemaValidationCode
  payload_field_constraint_violation : SchemaValidationCode

-- `SchemaValidationResult::ok`
unfoldable pub is_accepted : SchemaValidationCode → Bool
is_accepted ok = true
is_accepted _ = false

unfoldable pub is_supported_field_type : FieldType → Bool
is_supported_field_type type = true

unfoldable pub contains : List Text → Text → Bool
contains [] name = false
contains (seen ∷ rest) name = text_eq seen name || contains rest name

-- The loop over the fields from index `i` on, with the names of the fields before.
unfoldable pub validate_fields : List Text → ℕ → List FieldDef → SchemaValidationCode
unfolding is_supported_field_type
validate_fields names i [] = ok
validate_fields names i (field ∷ rest) =
    let more = validate_fields (field.name ∷ names) (i + 1) rest in
    if not (field.index == i)
    then non_contiguous_field_order
    else if contains names field.name
    then duplicate_field_name
    else if not (is_supported_field_type field.type)
    then unsupported_field_type
    else more

-- The tests against the schemas that are registered.
unfoldable pub validate_registered : SchemaDef → SchemaRegistry → SchemaValidationCode
validate_registered schema registry =
    let other_id : Bool = elim (find_by_name registry schema.schema_name) [
      | none ↦ false
      | some same_name ↦ not (same_name.message_id == schema.message_id)
    ] in
    let other_name : Bool = elim (find_by_message_id registry schema.message_id) [
      | none ↦ false
      | some same_id ↦ not (text_eq same_id.schema_name schema.schema_name)
    ] in
    if other_id then duplicate_schema_name else if other_name then duplicate_message_id else ok

unfoldable pub validate_schema : SchemaDef → Option SchemaRegistry → SchemaValidationCode
validate_schema schema registry =
    if length schema.schema_name == 0
    then empty_schema_name
    else if length schema.fields == 0
    then empty_fields
    else if schema.message_id == 0
    then message_id_out_of_range
    else elim (validate_fields [] 0 schema.fields) [
      | ok ↦ elim registry [ none ↦ ok | some r ↦ validate_registered schema r ]
      | code ↦ code
    ]

unfoldable pub check_types : List FieldDef → List FieldType → SchemaValidationCode
check_types (field ∷ fields) (type ∷ types) =
    let more = check_types fields types in
    if not (same_type field.type type) then payload_field_type_mismatch else more
check_types _ _ = ok

unfoldable pub validate_payload_field_types : SchemaDef → List FieldType → SchemaValidationCode
validate_payload_field_types schema types =
    if not (length types == length schema.fields)
    then payload_field_count_mismatch
    else check_types schema.fields types

unfoldable pub validate_message_id : SchemaDef → ℕ → SchemaValidationCode
validate_message_id schema message_id =
    if not (schema.message_id == message_id) then message_id_mismatch else ok

-- The length that a limit is about; `none` is `has_length` false.
unfoldable pub actual_length : FieldValue → Option ℕ
actual_length (FieldValue.string s) = some (length s)
actual_length (FieldValue.bytes s) = some (length s)
actual_length _ = none

unfoldable pub too_long : FieldDef → FieldValue → Bool
unfolding actual_length
too_long field value =
    if not field.constraints.has_max_length then false else elim (actual_length value) [
      | none ↦ false
      | some size ↦ ltb field.constraints.max_length size
    ]

unfoldable pub check_values : List FieldDef → OrderedPayload → SchemaValidationCode
check_values (field ∷ fields) (value ∷ values) =
    let more = check_values fields values in
    if not (same_type (type_of value) field.type)
    then payload_field_type_mismatch
    else if too_long field value
    then payload_field_constraint_violation
    else more
check_values _ _ = ok

unfoldable pub validate_payload_values : SchemaDef → OrderedPayload → SchemaValidationCode
validate_payload_values schema payload =
    if not (length payload == length schema.fields)
    then payload_field_count_mismatch
    else check_values schema.fields payload
