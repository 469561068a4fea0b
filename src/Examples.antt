-- ===== src/Examples.antt =====
-- Runs of the code on concrete values, and each result applied to one of them.
pub mod Payloads
pub mod Streams
pub mod Runtime
pub mod Pools
pub mod Tests
use keydrop.Base.{
  ℕ, ◌+◌, ◌/◌, ◌-◌, ◌%◌, ◌^◌, ◌≤◌, ◌<◌, ◌≡◌, ◌≢◌, ◌↔◌, ◌⊎◌, inl, inr, refl, arith, Bool, true,
  false, not, ◌&&◌, ltb, ◌==◌,
}
use keydrop.Base.{
  List, [], ◌∷◌, ◌++◌, map, Option, none, some, length, if◌then◌else◌, codes, text_key, number_key,
  IsByte, All,
}
use keydrop.Base
use keydrop.Base.{Result, ok}
use keydrop.Examples.Tests.{are_bytes-IsByte}
use keydrop.Base.Int
use keydrop.Base.Int.{ℤ, pos, negsuc}
use mathlib.Core.Option
use keydrop.Core.Endian.{
  Host, little, big, object_bytes, system_endian, to_little_endian_16, to_little_endian_32,
  to_little_endian_64,
}
use keydrop.Core.Endian.Laws.{swap, system_endian-order, wire_order}
use keydrop.Core.View
use keydrop.Core.View.{BufferView}
use keydrop.Core.Buffer
use keydrop.Core.Buffer.{Buffer, append_view, view, empty_buffer}
use keydrop.Core.Buffer.Slices.{append_view-slice, read-slice}
use keydrop.Core.Encoder
use keydrop.Core.Encoder.{Encoder}
use keydrop.Core.Reader
use keydrop.Core.Reader.{PacketReader}
use keydrop.Core.Packet
use keydrop.Core.Packet.{Item, IsValid, kind, wires, write_items, read_items}
use keydrop.Core.Packet.Write.{content}
use keydrop.Core.Packet.RoundTrip.{fresh, read_items-write_items, read_u16-write_u16_big}
use keydrop.Schema.Types
use keydrop.Schema.Types.Names.{try_parse_field_type_iff}
use keydrop.Schema.Types.{
  FieldType, FieldDef, SchemaDef, try_parse_field_type, field_type_to_string,
}
use keydrop.Schema.Layout.{build_packet_layout}
use keydrop.Schema.Layout.Fields.{Describes, build_packet_layout-Describes}
use keydrop.Schema.Optimizer
use keydrop.Schema.Optimizer.{
  RuntimeOptimizerConfig, result, optimize_packet, deoptimize_packet, is_optimized_packet,
}
use keydrop.Schema.Optimizer.RoundTrip.{deoptimize-optimize, deoptimize_plain}
use keydrop.Schema.Registry.{
  SchemaRegistry, SchemaRegistryStatusCode, empty_registry, register_schema, registered, fast_codec,
}
use keydrop.Schema.Registry.{
  find_by_name, find_by_message_id, find_layout_by_name, find_layout_by_message_id,
  find_fast_codec_by_name, find_fast_codec_by_message_id,
}
use keydrop.Schema.Registry.Agrees.{Agrees, Refusable, empty-Agrees, registered-Agrees}
use keydrop.Schema.Registry.Registered.{Registered, register_schema-Registered, find_layout-find_by}
use keydrop.Schema.Dictionary.{
  AdaptiveDictionary, AdaptiveDictionaryCode, answer, create_or_get, update,
}
use keydrop.Schema.Dictionary
use keydrop.Schema.Dictionary.Evicts.{Dropped, evict-Inverse}
use keydrop.Schema.Dictionary.Shrinks.{Held, allowed, configure-Held}
use keydrop.Schema.Dictionary.Holds.{create_or_get-Held}
use keydrop.Schema.Dictionary.Inverse.{Inverse}
use keydrop.Schema.Dictionary.Keeps.{Paired, create_or_get-Inverse, update-Inverse_iff}
use keydrop.Reliability.Crc.{crc32}
use keydrop.Reliability.Crc.Detects.{crc32_detects_one_byte}
use keydrop.Reliability.Check.{CorruptionCheckResult}
use keydrop.Reliability.Envelope.{CorruptionCheckOptions, check_packet}
use keydrop.Reliability.Envelope.Conditions.{Accepts}
use keydrop.Reliability.Envelope.Accepts.{check_packet-Accepts}
use keydrop.Reliability.Keydrop.{check_keydrop_packet}
use keydrop.Reliability.Keydrop.Packets.{IsPacket, check_keydrop_packet_iff}
use keydrop.Reliability.Synchronizer.{recover_next_packet, recover_all_packets, PacketSyncResult}
use keydrop.Reliability.Synchronizer.Finds.{Outcome, recover_next_packet-Outcome}
use keydrop.Reliability.Synchronizer.Recovers.{Run, recover_all_packets-Run}

abbrev pc : Host
pc = record { order = little; defines_byte_order = true }

abbrev mainframe : Host
mainframe = record { order = big; defines_byte_order = false }

abbrev five : Buffer
five = record { bytes_ = 1 ∷ 2 ∷ 3 ∷ 4 ∷ 5 ∷ []; capacity_ = 8 }

abbrev middle : BufferView
middle = record { data_ = some (3 ∷ 4 ∷ 5 ∷ []); size = 2 }

slice_run : Buffer.slice five 2 2 ≡ ok middle
unfolding Buffer.slice View.slice
slice_run = refl

read-slice_example :
    (2 + 2 ≤ 5)
    × (1 < 2
        → (x : ℕ) × (Base.get_elem? five.bytes_ (2 + 1) ≡ Base.some x)
          × (View.read middle 1 ≡ ok (Base.some x))
          × (Buffer.read five (2 + 1) ≡ ok (Base.some x)))
    × (2 ≤ 1 → View.read middle 1 ≡ Base.out_of_range)
read-slice_example = read-slice five 2 2 1 middle slice_run

abbrev items : List Item
items =
    Item.u8 7
    ∷ Item.i16 (negsuc 4)
    ∷ Item.string (codes "ab")
    ∷ Item.f64 5
    ∷ Item.bytes (1 ∷ [])
    ∷ []

items-IsValid : All IsValid items
items-IsValid = (omega arith, (omega arith, (omega arith, (omega arith, (tt, tt)))))

wires_run : length (wires items) ≡ 16
unfolding wires Packet.wire Base.le_bytes Int.to_word
wires_run = refl

read_items-write_items_example :
    (e : Encoder) × (r : PacketReader) × (write_items pc fresh items ≡ ok e)
    × (read_items pc (map kind items) (Reader.create (content e)) ≡ (ok items, r))
    × (Reader.empty r ≡ true)
read_items-write_items_example =
    read_items-write_items pc items refl items-IsValid (omega (arith, wires_run))

read_u16-write_u16_big_example :
    (e : Encoder) × (r : PacketReader) × (w : ℕ) × (Encoder.write_u16 mainframe fresh 0x1234 ≡ ok e)
    × (Reader.read_u16 mainframe (Reader.create (content e)) ≡ (ok w, r))
    × (w ≡ swap 2 0x1234)
    × ((w ≡ 0x1234) ↔ (0x1234 % 256 ≡ 0x1234 / 256))
read_u16-write_u16_big_example = read_u16-write_u16_big mainframe 0x1234 refl (omega arith)

abbrev field : FieldType → ℕ → FieldDef
field type index = record {
  name = codes "f";
  type = type;
  index = index;
  constraints = record { has_max_length = false; max_length = 0 };
}

abbrev telemetry : SchemaDef
telemetry = record {
  schema_name = codes "telemetry";
  message_id = 513;
  fields =
      field FieldType.u32 0
      ∷ field FieldType.f32 1
      ∷ field FieldType.u32 2
      ∷ field FieldType.string 3
      ∷ [];
}

abbrev packet : List ℕ
packet = 1 ∷ 2 ∷ 0 ∷ 0 ∷ 0 ∷ 0 ∷ 0 ∷ 0 ∷ 0 ∷ 0 ∷ 7 ∷ 0 ∷ 0 ∷ 0 ∷ 1 ∷ 0 ∷ 65 ∷ []

abbrev optimized : List ℕ
optimized = 1 ∷ 2 ∷ 0xFD ∷ 1 ∷ 3 ∷ 7 ∷ 0 ∷ 0 ∷ 0 ∷ 1 ∷ 0 ∷ 65 ∷ []

abbrev enabled : RuntimeOptimizerConfig
enabled = record { enabled = true; enable_zero_value_omission = true }

optimize_run : optimize_packet telemetry packet [] enabled ≡ (result true true 5, optimized)
unfolding optimize_packet Optimizer.optimize_fields Optimizer.optimize_field Optimizer.all_zero
    Optimizer.total_size Types.try_field_type_fixed_size Types.is_string Types.is_bytes Base.set_bit
    Base.read_u16_le
optimize_run = refl

deoptimize-optimize_example :
    (length optimized + 5 ≡ length packet)
    × (0 < 5)
    × (deoptimize_packet telemetry optimized [] ≡ (result true true (2 ^ 64 - 5), packet))
deoptimize-optimize_example =
    deoptimize-optimize telemetry packet [] optimized enabled 5 (omega arith) optimize_run

check_keydrop_packet_iff_example :
    ((check_keydrop_packet packet telemetry).ok ≡ true) ↔ IsPacket telemetry packet
check_keydrop_packet_iff_example =
    check_keydrop_packet_iff packet telemetry (are_bytes-IsByte packet refl) (omega arith)

build_packet_layout-Describes_example : Describes telemetry (build_packet_layout telemetry)
build_packet_layout-Describes_example = build_packet_layout-Describes telemetry

abbrev sealed : List ℕ
sealed = 75 ∷ 68 ∷ 2 ∷ 0 ∷ 9 ∷ 9 ∷ []

abbrev options : CorruptionCheckOptions
options = record {
  minimum_length = 4;
  header_offset = 0;
  expected_header = 75 ∷ 68 ∷ [];
  enable_length_prefix = true;
  length_field_offset = 2;
  length_field_size = 2;
  payload_offset = 4;
  max_payload_length = 16;
  strict_length_match = true;
  checksum_validator = some (λ p. length p == 6);
  enable_crc32 = false;
  crc32_offset = 0;
}

check_packet-Accepts_example :
    (r : CorruptionCheckResult) × (check_packet sealed options ≡ ok r)
    × ((r.ok ≡ true) ↔ Accepts sealed options)
check_packet-Accepts_example =
    check_packet-Accepts sealed options (are_bytes-IsByte sealed refl) (omega arith) (record {
      header = omega arith;
      prefix = omega arith;
      payload = omega arith;
      crc = omega arith;
    })

crc32_detects_one_byte_example :
    (crc32 ((1 ∷ 2 ∷ []) ++ (3 ∷ 4 ∷ [])) < 2 ^ 32)
    × (crc32 ((1 ∷ 2 ∷ []) ++ (3 ∷ 4 ∷ [])) ≢ crc32 ((1 ∷ 2 ∷ []) ++ (131 ∷ 4 ∷ [])))
crc32_detects_one_byte_example =
    crc32_detects_one_byte (1 ∷ 2 ∷ []) (4 ∷ []) 3 131 (are_bytes-IsByte (1 ∷ 2 ∷ []) refl)
      (are_bytes-IsByte (4 ∷ []) refl) (omega arith) (omega arith) (omega arith)

abbrev registry : SchemaRegistry
registry = registered empty_registry telemetry

registry-Agrees : Agrees registry
unfolding Base.find
registry-Agrees = registered-Agrees empty_registry telemetry empty-Agrees refl refl

register_schema-Registered_example :
    (((register_schema empty_registry telemetry).0 ≢ SchemaRegistryStatusCode.ok)
      × ((register_schema empty_registry telemetry).1 ≡ empty_registry)
      × Refusable empty_registry telemetry)
    ⊎ (((register_schema empty_registry telemetry).0 ≡ SchemaRegistryStatusCode.ok)
        × Registered empty_registry (register_schema empty_registry telemetry).1 telemetry)
register_schema-Registered_example =
    register_schema-Registered empty_registry telemetry empty-Agrees

abbrev stream : List ℕ
stream = 9 ∷ (packet ++ (8 ∷ optimized))

recover_next_packet-Outcome_example : Outcome registry stream (recover_next_packet stream registry)
recover_next_packet-Outcome_example = recover_next_packet-Outcome registry stream

recover_all_packets-Run_example :
    (rs : List PacketSyncResult) × (recover_all_packets stream registry
      ≡ some (not (length rs == 0), rs))
    × Run registry stream 0 rs
recover_all_packets-Run_example = recover_all_packets-Run registry stream

abbrev dictionary : List (Base.Text × ℕ) → List (ℕ × Base.Text) → List ℕ → AdaptiveDictionary
dictionary ids values order = record {
  config = record { enabled = true; enable_string_values = true; max_entries = 2 };
  next_id = 1;
  id_by_value = ids;
  value_by_id = values;
  insertion_order = order;
}

abbrev unused_dictionary : AdaptiveDictionary
unused_dictionary = dictionary [] [] []

unused-Inverse : Inverse unused_dictionary
unfolding Base.find
unused-Inverse = record { value_of = λ v i h. cc; id_of = λ v i h. cc }

abbrev one_entry : AdaptiveDictionary
one_entry = dictionary ((codes "red", 7) ∷ []) ((7, codes "red") ∷ []) (7 ∷ [])

one_entry-Inverse : Inverse one_entry
unfolding Base.find
one_entry-Inverse = record {
  value_of = λ v i h. ground (arith, Base.text_eq_iff (codes "red") v);
  id_of = λ v i h. ground (arith, Base.text_eq_iff (codes "red") v);
}

red_run : Base.find 7 one_entry.value_by_id ≡ some (codes "red")
unfolding Base.find
red_run = refl

none_run : Base.find 1 unused_dictionary.value_by_id ≡ none
unfolding Base.find
none_run = refl

update-Inverse_iff_example :
    ((update one_entry 7 (codes "blue")).0 ≡ true)
    × (Inverse (update one_entry 7 (codes "blue")).1
        ↔ ((other : ℕ) → Base.find (codes "blue") one_entry.id_by_value ≡ some other → other ≡ 7))
update-Inverse_iff_example =
    update-Inverse_iff one_entry 7 (codes "red") (codes "blue") one_entry-Inverse red_run

evict-Inverse_example : Dropped one_entry 7 (Dictionary.evict one_entry 7)
evict-Inverse_example = evict-Inverse one_entry 7 one_entry-Inverse

configure-Held_example :
    (after : AdaptiveDictionary) × (Dictionary.configure one_entry
        (record one_entry.config { max_entries = 0 })
      ≡ some after)
    × (Dictionary.size after ≤ (allowed (record one_entry.config { max_entries = 0 })).max_entries)
    × Held after
    × (after.config ≡ allowed (record one_entry.config { max_entries = 0 }))
configure-Held_example =
    configure-Held one_entry (record one_entry.config { max_entries = 0 })
      (record {
        inverse = one_entry-Inverse;
        ordered = ((codes "red", red_run), tt, tt);
        enough = omega arith;
      })

create_or_get-Held_example : Held (create_or_get unused_dictionary (codes "red")).1
create_or_get-Held_example =
    create_or_get-Held unused_dictionary (codes "red")
      (record { inverse = unused-Inverse; ordered = tt; enough = omega arith }) none_run
