-- ===== src/Schema/Registry.antt =====
-- src/schema/schema_registry.cpp: schemas by name and by message id, with what is computed from
-- each. The texts of the status messages are left out.
pub mod Agrees
pub mod Registered
use keydrop.Base.{ℕ, Bool, List, [], ◌∷◌, Option, none, some, length, if◌then◌else◌, ◌==◌}
use keydrop.Base.{Text, find, insert, text_key, number_key}
use keydrop.Schema.Types.{SchemaDef}
use keydrop.Schema.Layout.{PacketLayout, build_packet_layout}

-- What the constructor of `FastCodec` keeps; its tables of functions follow from the layout.
pub record FastCodec : Type 0 where
  pub schema : SchemaDef
  pub layout : PacketLayout

unfoldable pub fast_codec : SchemaDef → FastCodec
fast_codec schema = record { schema = schema; layout = build_packet_layout schema }

pub data SchemaRegistryStatusCode : Type 0 where
  ok duplicate_name duplicate_message_id invalid_schema : SchemaRegistryStatusCode

pub record SchemaRegistry : Type 0 where
  pub schemas_by_name : List (Text × SchemaDef)
  pub name_by_message_id : List (ℕ × Text)
  pub layouts_by_name : List (Text × PacketLayout)
  pub fast_codecs_by_name : List (Text × FastCodec)

abbrev pub empty_registry : SchemaRegistry
empty_registry = record {
  schemas_by_name = [];
  name_by_message_id = [];
  layouts_by_name = [];
  fast_codecs_by_name = [];
}

abbrev pub registered : SchemaRegistry → SchemaDef → SchemaRegistry
registered r schema = record {
  schemas_by_name = insert schema.schema_name schema r.schemas_by_name;
  name_by_message_id = insert schema.message_id schema.schema_name r.name_by_message_id;
  layouts_by_name = insert schema.schema_name (build_packet_layout schema) r.layouts_by_name;
  fast_codecs_by_name = insert schema.schema_name (fast_codec schema) r.fast_codecs_by_name;
}

unfoldable pub register_schema :
    SchemaRegistry → SchemaDef → SchemaRegistryStatusCode × SchemaRegistry
register_schema r schema =
    if length schema.schema_name == 0
    then (invalid_schema, r)
    else if length schema.fields == 0
    then (invalid_schema, r)
    else elim (find schema.schema_name r.schemas_by_name) [
      | some _ ↦ (duplicate_name, r)
      | none ↦ elim (find schema.message_id r.name_by_message_id) [
        | some _ ↦ (duplicate_message_id, r)
        | none ↦ (ok, registered r schema)
      ]
    ]

unfoldable pub find_by_name : SchemaRegistry → Text → Option SchemaDef
find_by_name r name = find name r.schemas_by_name

unfoldable pub find_by_message_id : SchemaRegistry → ℕ → Option SchemaDef
find_by_message_id r id = elim (find id r.name_by_message_id) [
  | none ↦ none
  | some name ↦ find_by_name r name
]

unfoldable pub find_layout_by_name : SchemaRegistry → Text → Option PacketLayout
find_layout_by_name r name = find name r.layouts_by_name

unfoldable pub find_layout_by_message_id : SchemaRegistry → ℕ → Option PacketLayout
find_layout_by_message_id r id = elim (find id r.name_by_message_id) [
  | none ↦ none
  | some name ↦ find_layout_by_name r name
]

unfoldable pub find_fast_codec_by_name : SchemaRegistry → Text → Option FastCodec
find_fast_codec_by_name r name = find name r.fast_codecs_by_name

unfoldable pub find_fast_codec_by_message_id : SchemaRegistry → ℕ → Option FastCodec
find_fast_codec_by_message_id r id = elim (find id r.name_by_message_id) [
  | none ↦ none
  | some name ↦ find_fast_codec_by_name r name
]

unfoldable pub size : SchemaRegistry → ℕ
size r = length r.schemas_by_name

unfoldable pub clear : SchemaRegistry → SchemaRegistry
clear r = empty_registry
