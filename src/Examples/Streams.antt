-- ===== src/Examples/Streams.antt =====
-- Runs of the stream optimizer, and each result applied to one.
use keydrop.Base.{ℕ, ◌+◌, ◌%◌, ◌^◌, ◌<◌, ◌≡◌, ◌≢◌, refl, sym, arith, Bool, true, false, ◌==◌}
use keydrop.Base.{
  List, [], ◌∷◌, Option, none, some, length, All, Result, ok, codes, text_key, find, Text,
  if◌then◌else◌,
}
use keydrop.Base
use keydrop.Base.Int
use keydrop.Base.Int.{ℤ, pos, negsuc}
use keydrop.Schema.Types
use keydrop.Schema.Types.{FieldDef}
use keydrop.Schema.Values
use keydrop.Schema.Values.{FieldValue, NamedPayload, OrderedPayload}
use keydrop.Schema.Fast.Encode.{packet_of}
use keydrop.Schema.Stream.Frames.Current.{AllCurrent}
use keydrop.Schema.Stream.Changes.{Floats, field_changed, payload_equals}
use keydrop.Schema.Stream.Delta
use keydrop.Schema.Stream.Frames.{build_delta_packet, expand_delta}
use keydrop.Schema.Stream.Frames.Fields.{HasField}
use keydrop.Schema.Stream.Frames.RoundTrip.{Expanded, expand_delta-build_delta_packet}
use keydrop.Schema.Stream.Sender
use keydrop.Schema.Stream.Sender.{
  StreamOptimizerConfig, StreamOptimizer, count_of, optimize_outgoing, record_decoded,
  record_decoded_delta, expand_incoming_delta,
}
use keydrop.Schema.Stream.Sender.InStep.{InStep}
use keydrop.Schema.Stream.Sender.Exchange.{
  optimize_outgoing-InStep, expand_incoming_delta-optimize_outgoing,
}
use keydrop.Examples.Payloads.{server, reading, named}

-- Floats that are compared by their bits, and every ratio under the threshold.
abbrev pub by_bits : Floats
by_bits = record {
  f32_equal = λ a b. a == b;
  f64_equal = λ a b. a == b;
  at_most = λ ratio threshold. true;
}

abbrev next_named : NamedPayload
next_named =
    (codes "count", FieldValue.u16 301)
    ∷ (codes "label", FieldValue.string (65 ∷ []))
    ∷ (codes "level", FieldValue.i32 (negsuc 4))
    ∷ []

both : All (HasField named next_named) reading.fields
unfolding find Values.type_of Base.text_eq
both = (
  (FieldValue.u16 300, FieldValue.u16 301, refl, refl, refl, refl, omega arith, omega arith),
  (
    (
      FieldValue.string (65 ∷ []),
      FieldValue.string (65 ∷ []),
      refl,
      refl,
      refl,
      refl,
      (omega arith, (omega arith, tt)),
      (omega arith, (omega arith, tt)),
    ),
    (
      (
        FieldValue.i32 (negsuc 4),
        FieldValue.i32 (negsuc 4),
        refl,
        refl,
        refl,
        refl,
        omega arith,
        omega arith,
      ),
      tt,
    ),
  ),
)

expand_delta-build_delta_packet_example :
    (packet : List ℕ) × (build_delta_packet by_bits reading named next_named 2 ≡ some packet)
    × (length packet < 2 ^ 64 → Expanded server by_bits reading named next_named 2 packet)
    × ((last : Option NamedPayload) (expected : ℕ)
        → expected ≢ 2
        → expand_delta server reading packet last expected ≡ ok none)
expand_delta-build_delta_packet_example =
    expand_delta-build_delta_packet server by_bits reading named next_named 2 refl both
      (omega arith) (omega arith) (omega arith)

abbrev pub delta_config : StreamOptimizerConfig
delta_config = record {
  enabled = true;
  enable_packet_reuse = true;
  enable_delta_updates = true;
  enable_batching = false;
  enable_delta_packets = true;
  keyframe_interval = 100;
  aggressive_after_samples = 0;
  max_batch_packets = 4;
  low_change_ratio_threshold = 0;
}

abbrev pub sender : StreamOptimizer
sender = record {
  config = delta_config;
  last_payload_by_schema = (codes "reading", named) ∷ [];
  last_packet_by_schema = [];
  sample_count_by_schema = (codes "reading", 5) ∷ [];
  batched_packets = [];
  delta_seq_by_schema = (codes "reading", 2) ∷ [];
  record_count_by_schema = (codes "reading", 3) ∷ [];
  last_decoded_by_schema = [];
  expected_delta_seq_by_schema = [];
}

abbrev receiver : StreamOptimizer
receiver = record sender {
  last_payload_by_schema = [];
  delta_seq_by_schema = [];
  last_decoded_by_schema = (codes "reading", named) ∷ [];
  expected_delta_seq_by_schema = (codes "reading", 2) ∷ [];
}

abbrev full_packet : List ℕ
full_packet = 1 ∷ 2 ∷ 45 ∷ 1 ∷ 1 ∷ 0 ∷ 65 ∷ 251 ∷ 255 ∷ 255 ∷ 255 ∷ []

abbrev sent_next : Sender.Sending
sent_next = optimize_outgoing by_bits reading (codes "reading") next_named full_packet sender

optimize_outgoing-InStep_example :
    (sent_next.1.emit_now ≡ true)
    × (find (codes "reading") sent_next.0.last_payload_by_schema ≡ some next_named)
    × (sent_next.1.used_delta_packet ≡ false
        → (sent_next.1.packet ≡ full_packet)
          × InStep
              (codes "reading")
              sent_next.0
              (record_decoded receiver (codes "reading") next_named))
    × (sent_next.1.used_delta_packet ≡ true
        → InStep (codes "reading") sender receiver
        → InStep
            (codes "reading")
            sent_next.0
            (record_decoded_delta receiver (codes "reading") next_named))
optimize_outgoing-InStep_example =
    optimize_outgoing-InStep by_bits reading (codes "reading") next_named full_packet sender
      receiver refl refl next_named

delta_run :
    (sent_next.1.used_delta_packet ≡ true)
    × (sent_next.1.packet ≡ 0xFB ∷ 1 ∷ 2 ∷ 2 ∷ 0 ∷ 1 ∷ 1 ∷ 0 ∷ 1 ∷ [])
unfolding optimize_outgoing find Base.text_eq payload_equals Values.same_type Values.type_of
    build_delta_packet Base.is_bit_set Base.bit_of field_changed Base.set_bit Base.le_bytes
    Types.is_variable_length Delta.write_numeric_delta Delta.fits_within Delta.◌-ℤ◌ Int.to_word
delta_run = (refl, refl)

expand_incoming_delta-optimize_outgoing_example :
    (InStep (codes "reading") sender receiver
      → (vs : OrderedPayload) × (merged : NamedPayload) × (expand_incoming_delta server receiver
            reading sent_next.1.packet
          ≡ ok (some (merged, packet_of reading vs)))
        × AllCurrent by_bits named next_named merged reading.fields vs)
    × ((InStep (codes "reading") sender receiver → ⊥)
        → expand_incoming_delta server receiver reading sent_next.1.packet ≡ ok none)
unfolding find Base.text_eq count_of
expand_incoming_delta-optimize_outgoing_example =
    expand_incoming_delta-optimize_outgoing server by_bits reading named next_named full_packet
      sender receiver refl refl refl delta_run.0 refl refl both (omega arith) (omega arith)
      (omega arith) (omega (arith, Base.ap length delta_run.1))
