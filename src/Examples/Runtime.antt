-- ===== src/Examples/Runtime.antt =====
-- Runs of the runtime, and each result applied to one.
use keydrop.Base.{
  ℕ, ◌+◌, ◌%◌, ◌^◌, ◌≤◌, ◌<◌, ◌≡◌, ◌≢◌, ◌⊎◌, inl, inr, refl, sym, ap, ◌∙◌, arith, Bool, true, false,
  ltb, min, ◌==◌, ◌&&◌,
}
use keydrop.Base.{
  List, [], ◌∷◌, ◌++◌, Option, none, some, length, All, IsByte, Result, ok, codes, text_key, take,
  number_key, Text, find, read_u16_le,
}
use keydrop.Base
use mathlib.Core.Path.{subst}
use keydrop.Base.Int.{negsuc, pos}
use keydrop.Core.Buffer.{Buffer, empty_buffer}
use keydrop.Core.Buffer
use keydrop.Core.Builder
use keydrop.Core.Encoder
use keydrop.Core.Endian
use keydrop.Schema.Fast
use keydrop.Schema.Dictionary
use keydrop.Schema.Layout
use keydrop.Schema.Types
use keydrop.Schema.Runtime.Codec
use keydrop.Schema.Runtime.Packets
use keydrop.Schema.Types.{SchemaDef}
use keydrop.Schema.Layout.{PacketLayout, build_packet_layout}
use keydrop.Schema.Values.{FieldValue, NamedPayload, OrderedPayload}
use keydrop.Schema.Values
use keydrop.Schema.Mapper
use keydrop.Schema.Mapper.{FieldMapperCode, map_ordered_to_named, map_named_to_ordered}
use keydrop.Schema.Validator
use keydrop.Schema.Validator.{SchemaValidationCode, validate_payload_values}
use keydrop.Schema.Validator.Accepts.{AllFit, validate_payload_values_iff}
use keydrop.Schema.Registry.{empty_registry, registered, find_by_name, find_by_message_id}
use keydrop.Schema.Registry.Agrees.{Agrees, empty-Agrees, registered-Agrees}
use keydrop.Schema.Dictionary.{AdaptiveDictionary}
use keydrop.Schema.Dictionary.Inverse.{Inverse}
use keydrop.Schema.Dictionary.Shrinks.{Held}
use keydrop.Schema.Profiler.{Ratios}
use keydrop.Schema.Runtime.{done, failed, corruption_detected}
use keydrop.Schema.Runtime.Packets.{encode_packet}
use keydrop.Schema.Optimizer.{is_optimized_packet}
use keydrop.Schema.Runtime.State.{
  SchemaRuntime, find_cached, find_registered, register_schema, profiled,
}
use keydrop.Schema.Runtime.Cache.{CacheAgrees, find_cached-register_schema}
use keydrop.Schema.Runtime.Send.{send_ordered, send}
use keydrop.Schema.Runtime.Receive.{receive}
use keydrop.Schema.Runtime.Exchange.{Linked, Unmarked, receive-send_ordered, receive-send}
use keydrop.Schema.Runtime.Types.{receive-AllFit}
use keydrop.Schema.Runtime.Streams.{wrap_crc, dispatch, receive_stream}
use keydrop.Schema.Runtime.Crc.{header, receive_stream-wrap_crc}
use keydrop.Schema.Runtime.Explicit.{Switched, profiled-Switched}
use keydrop.Examples.Payloads.{
  server, reading, values, named, values-Valid, values-Short, names-Distinct, map_run,
}
use keydrop.Schema.Runtime.Json.{Conversions, JsonValue, JsonObject}
use keydrop.Examples.Streams.{by_bits, sender}

-- The string of the values is known under the id 7.
abbrev label_dictionary : AdaptiveDictionary
label_dictionary = record {
  config = record { enabled = true; enable_string_values = true; max_entries = 256 };
  next_id = 8;
  id_by_value = ((65 ∷ []), 7) ∷ [];
  value_by_id = (7, (65 ∷ [])) ∷ [];
  insertion_order = 7 ∷ [];
}

abbrev pub runtime : SchemaRuntime
runtime = record {
  registry_ = registered empty_registry reading;
  optimizer_config_ = record { enabled = true; enable_zero_value_omission = true };
  dictionary_ = label_dictionary;
  stream_optimizer_ = sender;
  buffer_pool_ = record {
    config_ = record { initial_buffers = 0; default_capacity = 16; max_available = 2 };
    available_ = [];
    total_created_ = 0;
  };
  payload_pool_ = record {
    config_ = record {
      initial_ordered_payloads = 0;
      initial_named_payloads = 0;
      default_field_capacity = 4;
      max_available = 2;
    };
    ordered_available_ = [];
    named_available_ = [];
    total_ordered_created_ = 0;
    total_named_created_ = 0;
  };
  adaptive_profiler_ = record {
    config_ = record {
      enabled = true;
      window_size = 1;
      repeated_string_ratio_threshold = 0;
      dictionary_hit_rate_threshold = 0;
      unchanged_field_ratio_threshold = 0;
    };
    stats_ = [];
    previous_strings_ = [];
    dictionary_enabled_ = false;
    delta_enabled_ = false;
    decisions_applied_ = false;
  };
  reliability_config_ = record { enable_crc32 = true; max_recovered_packets = 1 };
  dictionary_explicit_ = true;
  optimizer_explicit_ = true;
  stream_explicit_ = false;
  cached_schema_name_ = [];
  cached_ = none;
}

ok-eq : {x y : List ℕ} → ok x ≡ ok y → x ≡ y
ok-eq e = cc

registry-Agrees : Agrees runtime.registry_
unfolding find
registry-Agrees = registered-Agrees empty_registry reading empty-Agrees refl refl

runtime-CacheAgrees : CacheAgrees runtime
runtime-CacheAgrees = record {
  agrees = registry-Agrees;
  cached = λ s l e. absurd (ground (arith, e));
}

label-Inverse : Inverse label_dictionary
unfolding find
label-Inverse = record {
  value_of = λ v i h. ground (arith, Base.text_eq_iff (65 ∷ []) v);
  id_of = λ v i h. ground (arith, Base.text_eq_iff (65 ∷ []) v);
}

runtime-Linked : Linked 1 runtime runtime
unfolding find
runtime-Linked = record {
  cache = runtime-CacheAgrees;
  same_registry = refl;
  same_dictionary = refl;
  same_optimizer = refl;
  ready = record { inverse = label-Inverse; fresh = λ i h. ground (arith, h); room = omega arith };
}

reading_run : find_by_name runtime.registry_ (codes "reading") ≡ some reading
unfolding find_by_name find Base.insert Base.text_eq
reading_run = refl

values-AllFit : AllFit reading.fields values
unfolding validate_payload_values Validator.check_values Validator.too_long Validator.actual_length
    Values.type_of Values.same_type Values.tag
values-AllFit = (validate_payload_values_iff reading values).0 refl

-- The string is written as the mark and the id.
abbrev plain_packet : List ℕ
plain_packet = 1 ∷ 2 ∷ 44 ∷ 1 ∷ 255 ∷ 255 ∷ 7 ∷ 0 ∷ 251 ∷ 255 ∷ 255 ∷ 255 ∷ []

encode_run :
    (encode_packet server reading (build_packet_layout reading) values label_dictionary).0
    ≡ ok plain_packet
unfolding encode_packet Encoder.write_u16 Builder.write Buffer.append_raw Endian.object_bytes
    Base.le_bytes Codec.encode_layout build_packet_layout Types.try_field_type_fixed_size
    Codec.encode_value Dictionary.lookup_id find Base.text_eq Fast.as_sequence Encoder.write_i32
    Encoder.take_buffer Builder.take_buffer Encoder.reserve Base.Int.to_word Buffer.reserve
    Builder.reserve Builder.write_bytes Encoder.write_bytes Encoder.write_object
    Encoder.write_string Endian.compiled_little Endian.system_endian Endian.to_little_endian_16
    Endian.to_little_endian_32 Fast.as_natural Fast.as_signed Layout.add_field Layout.add_fields
    Layout.codec_for_type Codec.encode_string Codec.value_at Codec.write_reference
    Codec.estimate_encoded_packet_size Codec.estimate_fields Packets.encode_fields_behind
    Packets.seal Values.write_value Dictionary.create_or_get
encode_run = refl

values-Unmarked : Unmarked server reading values runtime
unfolding is_optimized_packet
values-Unmarked on packet e =
    subst (λ p. is_optimized_packet p ≡ false) (ok-eq (sym encode_run ∙ e)) refl

receive-send_ordered_example :
    (packet : List ℕ) × (tx' : SchemaRuntime) × (rx' : SchemaRuntime) × (after : NamedPayload)
    × (send_ordered server runtime (codes "reading") values ≡ (ok (done packet), tx'))
    × (receive server runtime packet ≡ (done (codes "reading", after), rx'))
    × (map_ordered_to_named reading values ≡ (FieldMapperCode.ok, after))
    × (rx'.dictionary_ ≡ tx'.dictionary_)
receive-send_ordered_example =
    receive-send_ordered server reading (codes "reading") values runtime runtime refl runtime-Linked
      reading_run (omega arith) (omega arith) names-Distinct values-AllFit values-Valid values-Short
      values-Unmarked

-- What was delivered, for what is said of any packet that was received.
delivery :
    (packet : List ℕ) × (tx' : SchemaRuntime) × (rx' : SchemaRuntime) × (after : NamedPayload)
    × (send_ordered server runtime (codes "reading") values ≡ (ok (done packet), tx'))
    × (receive server runtime packet ≡ (done (codes "reading", after), rx'))
    × (map_ordered_to_named reading values ≡ (FieldMapperCode.ok, after))
    × (rx'.dictionary_ ≡ tx'.dictionary_)
delivery =
    receive-send_ordered server reading (codes "reading") values runtime runtime refl runtime-Linked
      reading_run (omega arith) (omega arith) names-Distinct values-AllFit values-Valid values-Short
      values-Unmarked

receive-AllFit_example :
    (schema : SchemaDef) × (find_by_message_id runtime.registry_ (read_u16_le delivery.0 0)
      ≡ some schema)
    × (codes "reading" ≡ schema.schema_name)
    × (vs : OrderedPayload) × AllFit schema.fields vs
    × (map_ordered_to_named schema vs ≡ (FieldMapperCode.ok, delivery.3))
receive-AllFit_example =
    receive-AllFit server runtime delivery.0 (codes "reading") delivery.3 (ap (λ r. r.0) delivery.5)

abbrev at_least : Ratios
at_least ratio threshold = false

receive-send_example :
    (packet : List ℕ) × (tx' : SchemaRuntime) × (rx' : SchemaRuntime) × (after : NamedPayload)
    × (send server by_bits at_least runtime (codes "reading") named ≡ (ok (done packet), tx'))
    × (receive server runtime packet ≡ (done (codes "reading", after), rx'))
    × (map_named_to_ordered reading after ≡ (FieldMapperCode.ok, values))
receive-send_example =
    receive-send server by_bits at_least reading (codes "reading") named values runtime runtime
      map_run refl runtime-Linked reading_run (omega arith) (omega arith) names-Distinct
      values-AllFit values-Valid values-Short values-Unmarked

receive_stream-wrap_crc_example :
    (receive_stream server runtime (wrap_crc (1 ∷ 2 ∷ 3 ∷ []))
      ≡ dispatch server runtime (1 ∷ 2 ∷ 3 ∷ []))
    × (receive_stream server runtime (header (1 ∷ 2 ∷ 3 ∷ []) ++ (1 ∷ 9 ∷ 3 ∷ []))
        ≡ (ok (failed corruption_detected), runtime))
receive_stream-wrap_crc_example =
    receive_stream-wrap_crc server runtime (1 ∷ []) (3 ∷ []) 2 9 (omega arith, tt) (omega arith, tt)
      (omega arith) (omega arith) (omega arith)

find_cached-register_schema_example :
    ((find_cached runtime (codes "reading")).0 ≡ (find_registered runtime (codes "reading")).0)
    × CacheAgrees (find_cached runtime (codes "reading")).1
    × CacheAgrees (register_schema runtime reading).1
find_cached-register_schema_example =
    find_cached-register_schema runtime (codes "reading") reading runtime-CacheAgrees

label-Held : Held label_dictionary
unfolding find
label-Held = record {
  inverse = label-Inverse;
  ordered = ((65 ∷ [], refl), tt, tt);
  enough = omega arith;
}

profiled-Switched_example :
    Switched runtime (profiled by_bits at_least runtime (codes "reading") named)
profiled-Switched_example =
    profiled-Switched by_bits at_least runtime (codes "reading") named label-Held (omega arith)
      (omega arith) (omega arith)

-- The conversions keep the bits.
abbrev by_hand : Conversions
by_hand = record {
  f32_of_integer = λ n. 0;
  f64_of_integer = λ n. 0;
  f32_of_f64 = λ x. x;
  f64_of_f32 = λ x. x;
}

abbrev json : JsonObject
json =
    (codes "level", JsonValue.integer (negsuc 4))
    ∷ (codes "count", JsonValue.integer (pos 300))
    ∷ (codes "label", JsonValue.string (65 ∷ []))
    ∷ []
