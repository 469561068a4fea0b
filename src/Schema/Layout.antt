-- ===== src/Schema/Layout.antt =====
-- src/schema/packet_layout.cpp: the layout of a schema's packets.
pub mod Fields
use keydrop.Base.{ℕ, ◌+◌, Bool, true, false, List, [], ◌∷◌, ◌++◌, none, some, if◌then◌else◌}
use keydrop.Schema.Types.{
  FieldType, FieldDef, FieldConstraints, SchemaDef, try_field_type_fixed_size,
}
use keydrop.Schema.Types.{u8, u16, u32, i8, i16, i32, f32, f64, string, bytes}

pub data FieldCodec : Type 0 where
  u8_value u16_value u32_value i8_value i16_value i32_value : FieldCodec
  f32_value f64_value string_value bytes_value : FieldCodec

pub record FieldLayout : Type 0 where
  pub type : FieldType
  pub codec : FieldCodec
  pub schema_index : ℕ
  pub fixed_size : ℕ
  pub byte_offset : ℕ
  pub variable_length : Bool
  pub dynamic_offset : Bool
  pub has_max_length : Bool
  pub max_length : ℕ

pub record PacketLayout : Type 0 where
  pub message_id : ℕ
  pub fields : List FieldLayout
  pub minimum_packet_size : ℕ
  pub fixed_payload_bytes : ℕ
  pub variable_field_count : ℕ
  pub fixed_packet_size : ℕ
  pub fixed_size_only : Bool

unfoldable pub codec_for_type : FieldType → FieldCodec
codec_for_type u8 = u8_value
codec_for_type u16 = u16_value
codec_for_type u32 = u32_value
codec_for_type i8 = i8_value
codec_for_type i16 = i16_value
codec_for_type i32 = i32_value
codec_for_type f32 = f32_value
codec_for_type f64 = f64_value
codec_for_type string = string_value
codec_for_type bytes = bytes_value

-- What the loop changes: the layout, the cursor, and whether a variable field was passed.
pub record Building : Type 0 where
  pub layout : PacketLayout
  pub cursor : ℕ
  pub dynamic : Bool

-- One round, for the field at index `i`.
unfoldable pub add_field : Building → ℕ → FieldDef → Building
unfolding codec_for_type
add_field b i field =
    let base : FieldLayout = record {
      type = field.type;
      codec = codec_for_type field.type;
      schema_index = i;
      fixed_size = 0;
      byte_offset = b.cursor;
      variable_length = false;
      dynamic_offset = b.dynamic;
      has_max_length = field.constraints.has_max_length;
      max_length = field.constraints.max_length;
    } in
    let layout = b.layout in
    elim (try_field_type_fixed_size field.type) [
      | some size ↦ record b {
        layout = record layout {
          fixed_payload_bytes = layout.fixed_payload_bytes + size;
          minimum_packet_size = layout.minimum_packet_size + size;
          fields = layout.fields ++ (record base { fixed_size = size } ∷ []);
        };
        cursor = b.cursor + size;
      }
      | none ↦ record {
        layout = record layout {
          variable_field_count = layout.variable_field_count + 1;
          minimum_packet_size = layout.minimum_packet_size + 2;
          fixed_size_only = false;
          fields = layout.fields ++ (record base { variable_length = true } ∷ []);
        };
        cursor = b.cursor + 2;
        dynamic = true;
      }
    ]

unfoldable pub add_fields : Building → ℕ → List FieldDef → Building
unfolding add_field
add_fields b i [] = b
add_fields b i (field ∷ rest) = add_fields (add_field b i field) (i + 1) rest

abbrev pub empty_layout : ℕ → PacketLayout
empty_layout message_id = record {
  message_id = message_id;
  fields = [];
  minimum_packet_size = 2;
  fixed_payload_bytes = 0;
  variable_field_count = 0;
  fixed_packet_size = 0;
  fixed_size_only = true;
}

unfoldable pub build_packet_layout : SchemaDef → PacketLayout
unfolding add_fields
build_packet_layout schema =
    let start : Building = record {
      layout = empty_layout schema.message_id;
      cursor = 2;
      dynamic = false;
    } in
    let layout = (add_fields start 0 schema.fields).layout in
    if layout.fixed_size_only
    then record layout { fixed_packet_size = layout.minimum_packet_size }
    else layout
