-- ===== src/Schema/Stream/Sender.antt =====
-- The state of src/schema/stream_optimizer.cpp, and what it decides to send. An entry that
-- `operator[]` adds with the value 0 is not told from one that is not there, and counts stay below
-- 2 ^ 64.
pub mod InStep
pub mod Exchange
pub mod Keyframes
use keydrop.Base.{
  ℕ, ◌+◌, ◌%◌, ◌^◌, not, ltb, leb, ◌==◌, Bool, true, false, ◌&&◌, List, [], ◌∷◌, ◌++◌, Option, none,
  some, length,
}
use keydrop.Base.{if◌then◌else◌, Text, text_key, find, assign, Result, ok}
use keydrop.Core.Endian.{Host}
use keydrop.Schema.Types.{SchemaDef}
use keydrop.Schema.Values.{NamedPayload}
use keydrop.Schema.Stream.Changes.{Floats, payload_equals, change_ratio}
use keydrop.Schema.Stream.Batch.{build_batch_packet}
use keydrop.Schema.Stream.Frames
use keydrop.Schema.Stream.Frames.{build_delta_packet}

pub record StreamOptimizerConfig : Type 0 where
  pub enabled : Bool
  pub enable_packet_reuse : Bool
  pub enable_delta_updates : Bool
  pub enable_batching : Bool
  pub enable_delta_packets : Bool
  pub keyframe_interval : ℕ
  pub aggressive_after_samples : ℕ
  pub max_batch_packets : ℕ
  pub low_change_ratio_threshold : ℕ

pub record StreamOptimizationOutput : Type 0 where
  pub emit_now : Bool
  pub used_packet_reuse : Bool
  pub queued_for_batch : Bool
  pub aggressive_mode : Bool
  pub used_delta_packet : Bool
  pub keyframe : Bool
  pub packet : List ℕ

pub record StreamOptimizer : Type 0 where
  pub config : StreamOptimizerConfig
  pub last_payload_by_schema : List (Text × NamedPayload)
  pub last_packet_by_schema : List (Text × List ℕ)
  pub sample_count_by_schema : List (Text × ℕ)
  pub batched_packets : List (List ℕ)
  pub delta_seq_by_schema : List (Text × ℕ)
  pub record_count_by_schema : List (Text × ℕ)
  pub last_decoded_by_schema : List (Text × NamedPayload)
  pub expected_delta_seq_by_schema : List (Text × ℕ)

unfoldable pub configure : StreamOptimizer → StreamOptimizerConfig → StreamOptimizer
configure o config = record o {
  config = record config {
    max_batch_packets = if config.max_batch_packets == 0 then 1 else config.max_batch_packets;
    keyframe_interval = if config.keyframe_interval == 0 then 1 else config.keyframe_interval;
  };
}

unfoldable pub reset : StreamOptimizer → StreamOptimizer
reset o = record {
  config = o.config;
  last_payload_by_schema = [];
  last_packet_by_schema = [];
  sample_count_by_schema = [];
  batched_packets = [];
  delta_seq_by_schema = [];
  record_count_by_schema = [];
  last_decoded_by_schema = [];
  expected_delta_seq_by_schema = [];
}

unfoldable pub reset_delta_state : StreamOptimizer → StreamOptimizer
reset_delta_state o = record o {
  last_payload_by_schema = [];
  delta_seq_by_schema = [];
  record_count_by_schema = [];
  last_decoded_by_schema = [];
  expected_delta_seq_by_schema = [];
}

-- `map[key]` of a map of counts, read.
unfoldable pub count_of : Text → List (Text × ℕ) → ℕ
count_of name counts = elim (find name counts) [ none ↦ 0 | some n ↦ n ]

abbrev pub Sending : Type 0
Sending = StreamOptimizer × StreamOptimizationOutput

abbrev pub plain_output : Bool → List ℕ → StreamOptimizationOutput
plain_output aggressive packet = record {
  emit_now = true;
  used_packet_reuse = false;
  queued_for_batch = false;
  aggressive_mode = aggressive;
  used_delta_packet = false;
  keyframe = false;
  packet = packet;
}

module _ (floats : Floats) (schema : SchemaDef) (name : Text) (payload : NamedPayload)
    (encoded : List ℕ) where
  -- A delta packet that was built is sent, and the sequence goes on.
  unfoldable pub send_delta : Sending → ℕ → List ℕ → Sending
  send_delta (o, out) seq delta = (
    record o { delta_seq_by_schema = assign name ((seq + 1) % 2 ^ 16) o.delta_seq_by_schema },
    record out { emit_now = true; used_delta_packet = true; packet = delta },
  )

  -- A payload that is equal to the last one.
  unfoldable pub send_unchanged : Sending → NamedPayload → Sending
  unfolding send_delta count_of
  send_unchanged (o, out) previous =
      let seq = count_of name o.delta_seq_by_schema in
      if o.config.enable_delta_packets
      then elim (build_delta_packet floats schema previous payload seq) [
        | none ↦ (o, out)
        | some delta ↦ send_delta (o, out) seq delta
      ]
      else (
        o,
        record out {
          emit_now = true;
          used_packet_reuse = true;
          packet = elim (find name o.last_packet_by_schema) [ none ↦ [] | some packet ↦ packet ];
        },
      )

  unfoldable pub send_keyframe : Sending → Sending
  send_keyframe (o, out) = (
    record o {
      delta_seq_by_schema = assign name 0 o.delta_seq_by_schema;
      record_count_by_schema = assign name 0 o.record_count_by_schema;
    },
    record out { emit_now = true; keyframe = true },
  )

  abbrev few_changes : StreamOptimizer → NamedPayload → Bool
  few_changes o previous =
      floats.at_most (change_ratio floats previous payload) o.config.low_change_ratio_threshold

  -- A delta packet, if little changed and it is shorter.
  unfoldable pub try_delta : Sending → NamedPayload → Sending
  unfolding send_delta count_of
  try_delta (o, out) previous =
      let seq = count_of name o.delta_seq_by_schema in
      if few_changes o previous
      then elim (build_delta_packet floats schema previous payload seq) [
        | none ↦ (o, out)
        | some delta ↦
            if ltb (length delta) (length encoded) then send_delta (o, out) seq delta else (o, out)
      ]
      else (o, out)

  -- The packet is queued, if little changed, and a batch that is full is sent.
  unfoldable pub try_batch : Sending → NamedPayload → Sending
  try_batch (o, out) previous =
      let queued = o.batched_packets ++ (encoded ∷ []) in
      if few_changes o previous
      then (if leb o.config.max_batch_packets (length queued)
          then (
            record o { batched_packets = [] },
            record out {
              packet = build_batch_packet queued;
              emit_now = true;
              queued_for_batch = false;
            },
          )
          else (
            record o { batched_packets = queued },
            record out { emit_now = false; queued_for_batch = true },
          ))
      else (o, out)

  -- The chain of tests, with the last payload of the schema, if there is one.
  unfoldable pub choose : Sending → Option NamedPayload → Sending
  unfolding send_unchanged send_keyframe try_delta try_batch count_of
  choose (o, out) none = if o.config.enable_delta_packets then send_keyframe (o, out) else (o, out)
  choose (o, out) (some previous) =
      if o.config.enable_packet_reuse && payload_equals floats previous payload
      then send_unchanged (o, out) previous
      else if o.config.enable_delta_packets
          && leb o.config.keyframe_interval (count_of name o.record_count_by_schema)
      then send_keyframe (o, out)
      else if o.config.enable_delta_packets && o.config.enable_delta_updates && out.aggressive_mode
      then try_delta (o, out) previous
      else if not o.config.enable_delta_packets
          && o.config.enable_delta_updates
          && o.config.enable_batching
          && out.aggressive_mode
      then try_batch (o, out) previous
      else (o, out)

  -- A full packet starts the sequence again.
  unfoldable pub resynchronize : Sending → Sending
  resynchronize (o, out) =
      if o.config.enable_delta_packets
        && not out.used_delta_packet
        && not out.keyframe
        && out.emit_now
      then (record o { delta_seq_by_schema = assign name 0 o.delta_seq_by_schema }, out)
      else (o, out)

  -- What is kept of what was sent, as the `n`th sample.
  unfoldable pub record_sent : ℕ → Sending → Sending
  unfolding count_of
  record_sent n (o, out) = (
    record o {
      last_payload_by_schema = assign name payload o.last_payload_by_schema;
      last_packet_by_schema =
          assign name (if out.used_delta_packet then out.packet else encoded)
            o.last_packet_by_schema;
      sample_count_by_schema = assign name (n + 1) o.sample_count_by_schema;
      record_count_by_schema =
          if o.config.enable_delta_packets
          then assign name (count_of name o.record_count_by_schema + 1) o.record_count_by_schema
          else o.record_count_by_schema;
    },
    out,
  )

  unfoldable pub optimize_outgoing : StreamOptimizer → Sending
  unfolding choose resynchronize record_sent count_of
  optimize_outgoing o =
      let n = count_of name o.sample_count_by_schema in
      let out = plain_output (leb o.config.aggressive_after_samples n) encoded in
      if not o.config.enabled
      then (
        record o {
          last_payload_by_schema = assign name payload o.last_payload_by_schema;
          last_packet_by_schema = assign name encoded o.last_packet_by_schema;
          sample_count_by_schema = assign name (n + 1) o.sample_count_by_schema;
        },
        out,
      )
      else record_sent n (resynchronize (choose (o, out) (find name o.last_payload_by_schema)))

-- The packet, if there is one, and the state behind.
unfoldable pub flush_batched : StreamOptimizer → Option (List ℕ) × StreamOptimizer
flush_batched o =
    if length o.batched_packets == 0
    then (none, o)
    else (some (build_batch_packet o.batched_packets), record o { batched_packets = [] })

unfoldable pub record_decoded : StreamOptimizer → Text → NamedPayload → StreamOptimizer
record_decoded o name payload = record o {
  last_decoded_by_schema = assign name payload o.last_decoded_by_schema;
  expected_delta_seq_by_schema = assign name 0 o.expected_delta_seq_by_schema;
}

unfoldable pub record_decoded_delta : StreamOptimizer → Text → NamedPayload → StreamOptimizer
unfolding count_of
record_decoded_delta o name payload = record o {
  last_decoded_by_schema = assign name payload o.last_decoded_by_schema;
  expected_delta_seq_by_schema =
      assign name ((count_of name o.expected_delta_seq_by_schema + 1) % 2 ^ 16)
        o.expected_delta_seq_by_schema;
}

-- `expand_delta` on the state of the receiver.
unfoldable pub expand_incoming_delta :
    Host → StreamOptimizer → SchemaDef → List ℕ → Result (Option (NamedPayload × List ℕ))
unfolding count_of
expand_incoming_delta host o schema packet =
    Frames.expand_delta host schema packet (find schema.schema_name o.last_decoded_by_schema)
      (count_of schema.schema_name o.expected_delta_seq_by_schema)
