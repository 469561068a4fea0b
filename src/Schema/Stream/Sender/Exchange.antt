-- ===== src/Schema/Stream/Sender/Exchange.antt =====
-- A sender and a receiver in delta mode, packet by packet.
use keydrop.Base.{ℕ, ◌+◌, ◌%◌, ◌^◌, ◌≤◌, ◌<◌, ◌≡◌, refl, sym, ap, ◌∙◌, inl, inr, arith, true, false}
use keydrop.Base.{List, Option, none, some, length, find, Text, text_key, All, ok}
use mathlib.Core.Path.{subst}
use keydrop.Core.Endian.{Host, little}
use keydrop.Schema.Types.{SchemaDef}
use keydrop.Schema.Values.{NamedPayload, OrderedPayload}
use keydrop.Schema.Fast.Encode.{packet_of}
use keydrop.Schema.Stream.Changes.{Floats}
use keydrop.Schema.Stream.Frames.{build_delta_packet, expand_delta}
use keydrop.Schema.Stream.Frames.Fields.{HasField}
use keydrop.Schema.Stream.Frames.Current.{AllCurrent}
use keydrop.Schema.Stream.Frames.RoundTrip.{expand_delta-build_delta_packet}
use keydrop.Schema.Stream.Sender.{
  StreamOptimizer, Sending, count_of, optimize_outgoing, record_decoded, record_decoded_delta,
  expand_incoming_delta,
}
use keydrop.Schema.Stream.Sender.InStep.{InStep, count_of-assign, optimize_outgoing-Sent}

module _ (floats : Floats) (schema : SchemaDef) (name : Text) (payload : NamedPayload)
    (encoded : List ℕ) (o r : StreamOptimizer) where
  abbrev sent : Sending
  sent = optimize_outgoing floats schema name payload encoded o

  -- With the optimizer enabled and in delta mode every payload is sent at once, and it is what the
  -- next delta packet starts from. Behind a full packet, which is the one encoded, the receiver
  -- that recorded it is in step with the sender, whatever was lost before; behind a delta packet it
  -- is if it was before.
  pub optimize_outgoing-InStep :
      o.config.enabled ≡ true
      → o.config.enable_delta_packets ≡ true
      → (decoded : NamedPayload)
      → (sent.1.emit_now ≡ true)
        × (find name sent.0.last_payload_by_schema ≡ some payload)
        × (sent.1.used_delta_packet ≡ false
            → (sent.1.packet ≡ encoded) × InStep name sent.0 (record_decoded r name decoded))
        × (sent.1.used_delta_packet ≡ true
            → InStep name o r
            → InStep name sent.0 (record_decoded_delta r name decoded))
  unfolding record_decoded record_decoded_delta
  optimize_outgoing-InStep enabled on decoded =
      let (now, kept, which) =
        optimize_outgoing-Sent floats schema name payload encoded o enabled on in
      let expected = count_of name r.expected_delta_seq_by_schema in
      let again = count_of-assign name 0 r.expected_delta_seq_by_schema in
      let onward = count_of-assign name ((expected + 1) % 2 ^ 16) r.expected_delta_seq_by_schema in
      elim which [
        | inl (full, packet, start) ↦
            (now, kept, (λ h. (packet, start ∙ sym again)), (λ h. absurd (ground (arith, full, h))))
        | inr (previous, found, used, built, next) ↦ (
          now,
          kept,
          (λ h. absurd (ground (arith, used, h))),
          (λ h step. next ∙ ap (λ k. (k + 1) % 2 ^ 16) step ∙ sym onward),
        )
      ]

some-injective : {A : Type 0} {x y : A} → some x ≡ some y → x ≡ y
some-injective e = cc

module _ (host : Host) (floats : Floats) (schema : SchemaDef) (previous payload : NamedPayload)
    (encoded : List ℕ) (o r : StreamOptimizer) where
  abbrev outgoing : Sending
  outgoing = optimize_outgoing floats schema schema.schema_name payload encoded o

  abbrev seq : ℕ
  seq = count_of schema.schema_name o.delta_seq_by_schema

  received :
      (packet : List ℕ)
      → packet ≡ outgoing.1.packet
      → (last : Option NamedPayload) (expected : ℕ)
      → find schema.schema_name r.last_decoded_by_schema ≡ last
      → count_of schema.schema_name r.expected_delta_seq_by_schema ≡ expected
      → expand_incoming_delta host r schema outgoing.1.packet
        ≡ expand_delta host schema packet last expected
  unfolding expand_incoming_delta
  received packet same last expected found count =
      ap (λ p. expand_incoming_delta host r schema p) (sym same)
      ∙ ap
          (λ l.
            expand_delta host schema packet l
              (count_of schema.schema_name r.expected_delta_seq_by_schema))
          found
      ∙ ap (expand_delta host schema packet last) count

  -- On a little-endian machine, with the optimizer enabled and in delta mode, at most 2040 fields,
  -- an id and a sequence of 16 bits and a packet of fewer than 2 ^ 64 bytes: where the last payload
  -- sent and the next one have a valid value of the right type for each field, a delta packet is
  -- sent and the receiver last decoded the last payload, it expands the packet to the next payload's
  -- values of the fields, if it is in step with the sender, and refuses it if it is not. Only in
  -- place of a float there may be the last one, if the machine finds the two equal.
  pub expand_incoming_delta-optimize_outgoing :
      host.order ≡ little
      → o.config.enabled ≡ true
      → o.config.enable_delta_packets ≡ true
      → outgoing.1.used_delta_packet ≡ true
      → find schema.schema_name o.last_payload_by_schema ≡ some previous
      → find schema.schema_name r.last_decoded_by_schema ≡ some previous
      → All (HasField previous payload) schema.fields
      → length schema.fields ≤ 2040
      → schema.message_id < 2 ^ 16
      → count_of schema.schema_name o.delta_seq_by_schema < 2 ^ 16
      → length outgoing.1.packet < 2 ^ 64
      → (InStep schema.schema_name o r
          → (vs : OrderedPayload) × (merged : NamedPayload) × (expand_incoming_delta host r schema
                outgoing.1.packet
              ≡ ok (some (merged, packet_of schema vs)))
            × AllCurrent floats previous payload merged schema.fields vs)
        × ((InStep schema.schema_name o r → ⊥)
            → expand_incoming_delta host r schema outgoing.1.packet ≡ ok none)
  expand_incoming_delta-optimize_outgoing order enabled on used last decoded has few id small fits =
      let (now, kept, which) =
        optimize_outgoing-Sent floats schema schema.schema_name payload encoded o enabled on in
      elim which [
        | inl (full, packet, start) ↦ absurd (ground (arith, full, used))
        | inr (before, found, delta, built, next) ↦
            let same : before ≡ previous = some-injective (sym found ∙ last) in
            let (packet, made, expanded, refused) =
              expand_delta-build_delta_packet host floats schema previous payload seq order has few
                id small in
            let is_sent : packet ≡ outgoing.1.packet = some-injective (
              sym made
              ∙ ap (λ p. build_delta_packet floats schema p payload seq) (sym same)
              ∙ built) in
            (
              λ step.
                  let (vs, merged, run, all) =
                    expanded (subst (λ p. length p < 2 ^ 64) (sym is_sent) fits) in
                  (
                    vs,
                    merged,
                    received packet is_sent (some previous) seq decoded (sym step) ∙ run,
                    all,
                  ),
              λ off.
                  received packet is_sent (some previous)
                    (count_of schema.schema_name r.expected_delta_seq_by_schema) decoded refl
                  ∙ refused (some previous) _ (λ e. off (sym e)),
            )
      ]
