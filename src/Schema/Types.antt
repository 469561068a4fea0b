-- ===== src/Schema/Types.antt =====
-- src/schema/schema_types.cpp: the types of fields, and schemas.
pub mod Names
pub mod Distinct
use keydrop.Base.{ℕ, Bool, true, false, ◌||◌, List, [], ◌∷◌, Option, none, some, if◌then◌else◌}
use keydrop.Base.{Text, codes, text_eq}

pub data FieldType : Type 0 where
  u8 u16 u32 i8 i16 i32 f32 f64 string bytes : FieldType

pub record FieldConstraints : Type 0 where
  pub has_max_length : Bool
  pub max_length : ℕ

pub record FieldDef : Type 0 where
  pub name : Text
  pub type : FieldType
  pub index : ℕ
  pub constraints : FieldConstraints

pub record SchemaDef : Type 0 where
  pub schema_name : Text
  pub message_id : ℕ
  pub fields : List FieldDef

unfoldable pub mapping : List (Text × FieldType)
mapping =
    (codes "u8", u8)
    ∷ (codes "u16", u16)
    ∷ (codes "u32", u32)
    ∷ (codes "i8", i8)
    ∷ (codes "i16", i16)
    ∷ (codes "i32", i32)
    ∷ (codes "f32", f32)
    ∷ (codes "f64", f64)
    ∷ (codes "string", string)
    ∷ (codes "bytes", bytes)
    ∷ []

unfoldable pub find_type : List (Text × FieldType) → Text → Option FieldType
find_type [] value = none
find_type ((key, type) ∷ rest) value = if text_eq key value then some type else find_type rest value

unfoldable pub try_parse_field_type : Text → Option FieldType
unfolding find_type mapping
try_parse_field_type value = find_type mapping value

unfoldable pub field_type_to_string : FieldType → Text
field_type_to_string u8 = codes "u8"
field_type_to_string u16 = codes "u16"
field_type_to_string u32 = codes "u32"
field_type_to_string i8 = codes "i8"
field_type_to_string i16 = codes "i16"
field_type_to_string i32 = codes "i32"
field_type_to_string f32 = codes "f32"
field_type_to_string f64 = codes "f64"
field_type_to_string string = codes "string"
field_type_to_string bytes = codes "bytes"

-- `type == FieldType::string`
unfoldable pub is_string : FieldType → Bool
is_string string = true
is_string _ = false

unfoldable pub is_bytes : FieldType → Bool
is_bytes bytes = true
is_bytes _ = false

unfoldable pub is_variable_length : FieldType → Bool
unfolding is_string is_bytes
is_variable_length type = is_string type || is_bytes type

unfoldable pub try_field_type_fixed_size : FieldType → Option ℕ
try_field_type_fixed_size u8 = some 1
try_field_type_fixed_size i8 = some 1
try_field_type_fixed_size u16 = some 2
try_field_type_fixed_size i16 = some 2
try_field_type_fixed_size u32 = some 4
try_field_type_fixed_size i32 = some 4
try_field_type_fixed_size f32 = some 4
try_field_type_fixed_size f64 = some 8
try_field_type_fixed_size string = none
try_field_type_fixed_size bytes = none
