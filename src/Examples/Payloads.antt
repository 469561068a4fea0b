-- ===== src/Examples/Payloads.antt =====
-- Runs of the parts of the schema directory that carry payloads, and each result applied to one.
use keydrop.Base.{
  ℕ, ◌+◌, ◌%◌, ◌^◌, ◌≤◌, ◌<◌, ◌≡◌, ◌≢◌, ◌↔◌, refl, sym, arith, Bool, true, false, ltb, ◌&&◌,
}
use keydrop.Base.{
  List, [], ◌∷◌, ◌++◌, map, Option, none, some, length, All, IsByte, Result, ok, codes, text_key,
  number_key, Text,
}
use keydrop.Base
use keydrop.Base.Int.{ℤ, pos, negsuc}
use keydrop.Base.Int
use keydrop.Examples.Tests.{are_bytes-IsByte}
use keydrop.Core.Endian.{Host, little}
use keydrop.Core.Buffer.{Buffer, empty_buffer}
use keydrop.Core.Reader.{PacketReader}
use keydrop.Core.Packet.Read.{At, Reads}
use keydrop.Schema.Types.{FieldType, FieldDef, SchemaDef}
use keydrop.Schema.Types.Distinct.{Distinct}
use keydrop.Schema.Values
use keydrop.Schema.Values.{FieldValue, NamedPayload, OrderedPayload}
use keydrop.Schema.Values.Wire
use keydrop.Schema.Values.Wire.{Valid, values_wire}
use keydrop.Schema.Registry.{empty_registry, registered, fast_codec}
use keydrop.Schema.Optimizer.{is_optimized_packet}
use keydrop.Schema.Mapper.{
  FieldMapperCode, map_named_to_ordered, map_ordered_to_named, encode_named_payload,
}
use keydrop.Schema.Mapper
use keydrop.Schema.Mapper.RoundTrip.{
  Mapped, Known, Typed, map_named_to_ordered_iff, map_named_to_ordered-map_ordered_to_named,
}
use keydrop.Schema.Validator.{
  SchemaValidationCode, validate_schema, validate_payload_values, validate_payload_field_types,
}
use keydrop.Schema.Validator
use keydrop.Schema.Validator.Accepts.{
  WellFormed, Compatible, AllFit, validate_schema_iff, validate_payload_values_iff,
}
use keydrop.Schema.Dictionary.{AdaptiveDictionary}
use keydrop.Schema.Fast
use keydrop.Schema.Fast.{FastCodecCode, FastDecodedField, encode, decode, refused, batch_marker}
use keydrop.Schema.Fast.Encode.{packet_of, encode-packet_of}
use keydrop.Schema.Fast.Slots.{Short, AllCarry}
use keydrop.Schema.Fast.Decode.{decode-packet_of}
use keydrop.Schema.Stream.Batch.{expand_incoming, build_batch_packet}
use keydrop.Schema.Stream.Batch
use keydrop.Schema.Stream.Batch.RoundTrip
use keydrop.Schema.Stream.Batch.RoundTrip.{
  expand_incoming-build_batch_packet, build_batch_packet-expand_incoming,
}
use keydrop.Schema.Stream.Delta.{write_numeric_delta, read_numeric_delta}
use keydrop.Schema.Stream.Delta
use keydrop.Schema.Stream.Delta.Numeric.{read_numeric_delta-write_numeric_delta}
use keydrop.Reliability.Keydrop.{check_keydrop_packet}
use keydrop.Reliability.Keydrop.Values.{check_keydrop_packet-validate_payload_values}

abbrev pub server : Host
server = record { order = little; defines_byte_order = true }

abbrev pub entry : Text → FieldType → ℕ → FieldDef
entry name type index = record {
  name = name;
  type = type;
  index = index;
  constraints = record { has_max_length = true; max_length = 4 };
}

abbrev pub reading : SchemaDef
reading = record {
  schema_name = codes "reading";
  message_id = 513;
  fields =
      entry (codes "count") FieldType.u16 0
      ∷ entry (codes "label") FieldType.string 1
      ∷ entry (codes "level") FieldType.i32 2
      ∷ [];
}

abbrev pub values : OrderedPayload
values = FieldValue.u16 300 ∷ FieldValue.string (65 ∷ []) ∷ FieldValue.i32 (negsuc 4) ∷ []

abbrev pub named : NamedPayload
named =
    (codes "level", FieldValue.i32 (negsuc 4))
    ∷ (codes "count", FieldValue.u16 300)
    ∷ (codes "label", FieldValue.string (65 ∷ []))
    ∷ []

pub values-Typed : Typed reading.fields values
unfolding Values.type_of
values-Typed = (refl, (refl, (refl, tt)))

pub values-Valid : All Valid values
values-Valid = (omega arith, ((omega arith, (omega arith, tt)), (omega arith, tt)))

pub names-Distinct : Distinct reading.fields
names-Distinct = (
  ((λ e. grind (arith, e)), ((λ e. grind (arith, e)), tt)),
  (((λ e. grind (arith, e)), tt), (tt, tt)),
)

map_named_to_ordered_iff_example :
    (map_named_to_ordered reading named ≡ (FieldMapperCode.ok, values)) ↔ (
      Mapped reading.fields named values
      × (length reading.fields < length named → Known reading.fields named))
map_named_to_ordered_iff_example = map_named_to_ordered_iff reading named values

map_named_to_ordered-map_ordered_to_named_example :
    (after : NamedPayload) × (map_ordered_to_named reading values ≡ (FieldMapperCode.ok, after))
    × (map_named_to_ordered reading after ≡ (FieldMapperCode.ok, values))
map_named_to_ordered-map_ordered_to_named_example =
    map_named_to_ordered-map_ordered_to_named reading values names-Distinct values-Typed

pub map_run : map_named_to_ordered reading named ≡ (FieldMapperCode.ok, values)
unfolding map_named_to_ordered Mapper.map_fields Base.find Values.type_of Values.same_type
    Values.tag Base.text_eq
map_run = refl

validate_schema_iff_example :
    (validate_schema reading (some (registered empty_registry reading)) ≡ SchemaValidationCode.ok)
    ↔ (WellFormed reading × Compatible reading (registered empty_registry reading))
validate_schema_iff_example = validate_schema_iff reading (registered empty_registry reading)

validate_payload_values_iff_example :
    (validate_payload_values reading values ≡ SchemaValidationCode.ok)
    ↔ AllFit reading.fields values
validate_payload_values_iff_example = validate_payload_values_iff reading values

encode-packet_of_example :
    (((encode (fast_codec reading) (some values) empty_buffer).0 ≡ FastCodecCode.ok)
      ↔ Typed reading.fields values)
    × (Typed reading.fields values
        → (after : Buffer) × (encode (fast_codec reading) (some values) empty_buffer
            ≡ (FastCodecCode.ok, ok after))
          × (after.bytes_ ≡ packet_of reading values))
    × ((¬ Typed reading.fields values)
        → (encode (fast_codec reading) (some values) empty_buffer).1 ≡ ok empty_buffer)
encode-packet_of_example = encode-packet_of reading values empty_buffer values-Valid

abbrev bare_dictionary : AdaptiveDictionary
bare_dictionary = record {
  config = record { enabled = false; enable_string_values = false; max_entries = 0 };
  next_id = 1;
  id_by_value = [];
  value_by_id = [];
  insertion_order = [];
}

abbrev slot : FastDecodedField
slot = record {
  type = FieldType.u8;
  as_integer = 0;
  as_float = 0;
  view = Fast.blank_view server (λ bits. bits);
  owned = [];
  owned_string = false;
}

pub values-Short : All Short values
values-Short = (tt, (omega arith, (tt, tt)))

packet_run : packet_of reading values ≡ 1 ∷ 2 ∷ 44 ∷ 1 ∷ 1 ∷ 0 ∷ 65 ∷ 251 ∷ 255 ∷ 255 ∷ 255 ∷ []
unfolding values_wire Base.le_bytes Int.to_word Wire.value_wire
packet_run = refl

decode-packet_of_example :
    (reading.message_id % 256 ≢ batch_marker
      → is_optimized_packet (packet_of reading values) ≡ false
      → (fields : List FastDecodedField) × (decode server
            (λ bits. bits)
            (fast_codec reading)
            bare_dictionary
            (packet_of reading values)
            (some (slot ∷ slot ∷ slot ∷ []))
          ≡ record {
            code = FastCodecCode.ok;
            out_count = length reading.fields;
            fields = some fields;
          })
        × AllCarry (λ bits. bits) values fields)
    × (reading.message_id % 256 ≡ batch_marker
        → decode server
            (λ bits. bits)
            (fast_codec reading)
            bare_dictionary
            (packet_of reading values)
            (some (slot ∷ slot ∷ slot ∷ []))
          ≡ refused FastCodecCode.unsupported_envelope)
decode-packet_of_example =
    decode-packet_of server (λ bits. bits) reading bare_dictionary values (slot ∷ slot ∷ slot ∷ [])
      refl values-Typed values-Valid values-Short (omega arith)
      (omega (arith, Base.ap length packet_run)) (omega arith)

validate_run : validate_payload_values reading values ≡ SchemaValidationCode.ok
unfolding validate_payload_values Validator.check_values Validator.too_long Validator.actual_length
    Values.type_of Values.same_type Values.tag
validate_run = refl

check_keydrop_packet-validate_payload_values_example :
    (check_keydrop_packet (packet_of reading values) reading).ok ≡ true
check_keydrop_packet-validate_payload_values_example =
    check_keydrop_packet-validate_payload_values reading values validate_run values-Valid
      values-Short (omega arith)

abbrev parts : List (List ℕ)
parts = (1 ∷ 2 ∷ []) ∷ [] ∷ (3 ∷ []) ∷ []

expand_incoming-build_batch_packet_example :
    expand_incoming (build_batch_packet parts) ≡ (true, parts)
expand_incoming-build_batch_packet_example =
    expand_incoming-build_batch_packet parts (omega arith, (omega arith, (omega arith, tt)))
      (omega arith)

abbrev batch : List ℕ
batch = 0xFC ∷ 3 ∷ 2 ∷ 0 ∷ 1 ∷ 2 ∷ 0 ∷ 0 ∷ 1 ∷ 0 ∷ 3 ∷ []

batch_run : expand_incoming batch ≡ (true, parts)
unfolding expand_incoming Batch.expand_parts Base.read_u16_le
batch_run = refl

build_batch_packet-expand_incoming_example :
    (build_batch_packet parts ≡ batch) × All RoundTrip.Short parts
build_batch_packet-expand_incoming_example =
    build_batch_packet-expand_incoming batch parts (are_bytes-IsByte batch refl) refl batch_run

abbrev at_start : PacketReader
at_start = record { buffer = 0 ∷ 251 ∷ 9 ∷ []; cursor = 0 }

delta_run : write_numeric_delta (FieldValue.i32 (pos 3)) (FieldValue.i32 (negsuc 1)) ≡ 0 ∷ 251 ∷ []
unfolding write_numeric_delta Delta.fits_within Delta.◌-ℤ◌ Base.le_bytes Int.to_word
delta_run = refl

at_start-At :
    At at_start
      (write_numeric_delta (FieldValue.i32 (pos 3)) (FieldValue.i32 (negsuc 1)) ++ (9 ∷ []))
at_start-At = record {
  within = omega arith;
  small = omega arith;
  follows = Base.ap (λ l. l ++ (9 ∷ [])) (sym delta_run);
}

read_numeric_delta-write_numeric_delta_example :
    Reads
      (read_numeric_delta server (FieldValue.i32 (pos 3)))
      at_start
      (some (FieldValue.i32 (negsuc 1)))
      (9 ∷ [])
unfolding Values.type_of
read_numeric_delta-write_numeric_delta_example =
    read_numeric_delta-write_numeric_delta server refl (FieldValue.i32 (pos 3))
      (FieldValue.i32 (negsuc 1)) (9 ∷ []) at_start refl tt (omega arith) at_start-At
