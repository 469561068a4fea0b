-- ===== src/Schema/Runtime/Streams.antt =====
-- The stream methods of src/schema/schema_runtime.cpp. A read past the end of an empty vector is
-- given as the exception. What the named payload of a lease holds is taken as that of its last use.
pub mod Limit
use keydrop.Base.{ℕ, zero, suc, ◌+◌, ◌/◌, ◌%◌, ◌^◌, ◌*◌, ltb, ◌==◌, not, Bool, true, false, ◌&&◌}
use keydrop.Base.{List, [], ◌∷◌, ◌++◌, length, get_or, drop, take, Option, none, some, read_u16_le}
use keydrop.Base.{if◌then◌else◌, Result, ok, out_of_range, Text}
use keydrop.Core.Endian.{Host}
use keydrop.Schema.Types.{SchemaDef}
use keydrop.Schema.Registry.{find_by_name, find_by_message_id}
use keydrop.Schema.Values.{FieldValue, NamedPayload}
use keydrop.Schema.Dictionary
use keydrop.Schema.PayloadPool.{Container, acquire_named, release_named}
use keydrop.Schema.Profiler.{Ratios}
use keydrop.Schema.Stream.Changes.{Floats}
use keydrop.Schema.Stream.Batch.{expand_incoming}
use keydrop.Schema.Stream.Frames.{delta_marker}
use keydrop.Schema.Stream.Sender.{
  StreamOptimizer, optimize_outgoing, flush_batched, record_decoded, record_decoded_delta,
  expand_incoming_delta,
}
use keydrop.Reliability.Crc.{crc32_raw}
use keydrop.Reliability.Synchronizer.{PacketSyncResult, recover_all_packets}
use keydrop.Schema.Runtime.{
  Outcome, done, failed, schema_not_found, decode_failed, corruption_detected,
  synchronization_failed,
}
use keydrop.Schema.Runtime.State.{SchemaRuntime}
use keydrop.Schema.Runtime.Send.{send, holding}
use keydrop.Schema.Runtime.Receive.{Received, receive}

abbrev pub crc_wrapper_marker : ℕ
crc_wrapper_marker = 0xF9

abbrev pub control_marker : ℕ
control_marker = 0xFA

-- The envelope of `send_stream` and of `flush_stream`.
unfoldable pub wrap_crc : List ℕ → List ℕ
wrap_crc packet =
    let crc = crc32_raw (some packet) (length packet) in
    crc_wrapper_marker
    ∷ (crc % 256)
    ∷ (crc / 2 ^ 8 % 256)
    ∷ (crc / 2 ^ 16 % 256)
    ∷ (crc / 2 ^ 24 % 256)
    ∷ packet

abbrev pub enveloped : SchemaRuntime → List ℕ → List ℕ
enveloped rt packet = if rt.reliability_config_.enable_crc32 then wrap_crc packet else packet

-- The CRC that stands behind the marker; the bytes do not overlap.
abbrev pub stored_crc : List ℕ → ℕ
stored_crc packet =
    get_or packet 1 0
    + get_or packet 2 0 * 2 ^ 8
    + get_or packet 3 0 * 2 ^ 16
    + get_or packet 4 0 * 2 ^ 24

-- The packet that is dispatched on.
unfoldable pub unwrap_crc : List ℕ → Outcome (List ℕ)
unwrap_crc packet =
    if not (get_or packet 0 0 == crc_wrapper_marker)
    then done packet
    else if ltb (length packet) 5
    then failed corruption_detected
    else if not (stored_crc packet == crc32_raw (some (drop 5 packet)) (length (drop 5 packet)))
    then failed corruption_detected
    else done (drop 5 packet)

module _ (host : Host) (floats : Floats) (at_least : Ratios) where
  -- `none` is `out_has_packet` false.
  unfoldable pub send_stream :
      SchemaRuntime → Text → NamedPayload → Result (Outcome (Option (List ℕ))) × SchemaRuntime
  send_stream rt name payload =
      let (sent, rt') = send host floats at_least rt name payload in
      elim sent [
        | out_of_range ↦ (out_of_range, rt')
        | ok outcome ↦ elim outcome [
          | failed code ↦ (ok (failed code), rt')
          | done base_packet ↦ elim (find_by_name rt'.registry_ name) [
            | none ↦ (ok (failed schema_not_found), rt')
            | some schema ↦
                let (o, out) =
                  optimize_outgoing floats schema name payload base_packet rt'.stream_optimizer_ in
                (
                  ok (done (if out.emit_now then some (enveloped rt' out.packet) else none)),
                  record rt' { stream_optimizer_ = o },
                )
          ]
        ]
      ]

unfoldable pub flush_stream : SchemaRuntime → Option (List ℕ) × SchemaRuntime
flush_stream rt =
    let (flushed, o) = flush_batched rt.stream_optimizer_ in
    (
      elim flushed [ none ↦ none | some packet ↦ some (enveloped rt packet) ],
      record rt { stream_optimizer_ = o },
    )

unfoldable pub send_dictionary_reset : List ℕ
send_dictionary_reset = control_marker ∷ 0 ∷ []

abbrev pub Messages : Type 0
Messages = List (Text × NamedPayload)

module _ (host : Host) where
  -- `receive` of one packet into a named payload that is leased.
  unfoldable pub receive_leased : SchemaRuntime → List ℕ → Received × SchemaRuntime
  receive_leased rt packet =
      let (slot, leased) = acquire_named rt.payload_pool_ 0 in
      let (received, rt') = receive host (record rt { payload_pool_ = leased }) packet in
      let used : Container (Text × FieldValue) = elim received [
        | failed code ↦ slot
        | done message ↦ holding slot message.1
      ] in
      (received, record rt' { payload_pool_ = release_named rt'.payload_pool_ used })

  -- The loop over the packets of a batch, with the messages so far.
  unfoldable pub receive_packets :
      SchemaRuntime → List (List ℕ) → Messages → Outcome Messages × SchemaRuntime
  unfolding receive_leased
  receive_packets rt [] out = (done out, rt)
  receive_packets rt (packet ∷ packets) out =
      let (received, rt') = receive_leased rt packet in
      elim received [
        | failed code ↦ (failed code, rt')
        | done (name, payload) ↦
            receive_packets
              (record rt' { stream_optimizer_ = record_decoded rt'.stream_optimizer_ name payload })
              packets (out ++ ((name, payload) ∷ []))
      ]

  unfoldable pub receive_delta : SchemaRuntime → List ℕ → Result (Outcome Messages) × SchemaRuntime
  unfolding receive_leased
  receive_delta rt packet =
      if ltb (length packet) 6
      then (ok (failed decode_failed), rt)
      else elim (find_by_message_id rt.registry_ (read_u16_le packet 1)) [
        | none ↦ (ok (failed schema_not_found), rt)
        | some schema ↦ elim (expand_incoming_delta host rt.stream_optimizer_ schema packet) [
          | out_of_range ↦ (out_of_range, rt)
          | ok expanded ↦ elim expanded [
            | none ↦ (ok (failed decode_failed), rt)
            | some (merged, full_packet) ↦
                let (received, rt') = receive_leased rt full_packet in
                elim received [
                  | failed code ↦ (ok (failed code), rt')
                  | done (name, payload) ↦ (
                    ok (done ((name, payload) ∷ [])),
                    record rt' {
                      stream_optimizer_ = record_decoded_delta rt'.stream_optimizer_ name payload;
                    },
                  )
                ]
          ]
        ]
      ]

  -- What follows the envelope.
  unfoldable pub dispatch : SchemaRuntime → List ℕ → Result (Outcome Messages) × SchemaRuntime
  unfolding receive_delta receive_packets
  dispatch rt [] = (out_of_range, rt)
  dispatch rt (first ∷ rest) =
      let packet = first ∷ rest in
      let (expands, packets) = expand_incoming packet in
      let (outcome, rt') = receive_packets rt packets [] in
      if first == control_marker
      then (ok (done []), record rt { dictionary_ = Dictionary.reset rt.dictionary_ })
      else if first == delta_marker
      then receive_delta rt packet
      else if not expands
      then (ok (failed decode_failed), rt)
      else (ok outcome, rt')

  unfoldable pub receive_stream : SchemaRuntime → List ℕ → Result (Outcome Messages) × SchemaRuntime
  unfolding unwrap_crc dispatch
  receive_stream rt packet =
      if length packet == 0 then (ok (failed decode_failed), rt) else elim (unwrap_crc packet) [
        | failed code ↦ (ok (failed code), rt)
        | done working ↦ dispatch rt working
      ]

  -- The loop over the packets that were recovered, with the messages and the skipped bytes so far.
  unfoldable pub receive_recovered :
      SchemaRuntime → List PacketSyncResult → Messages → ℕ → Outcome (Messages × ℕ) × SchemaRuntime
  unfolding receive_leased
  receive_recovered rt [] out skipped = (done (out, skipped), rt)
  receive_recovered rt (recovered ∷ rest) out skipped =
      let (received, rt') = receive_leased rt recovered.packet in
      elim received [
        | failed code ↦ (failed code, rt')
        | done message ↦
            receive_recovered rt' rest (out ++ (message ∷ [])) (skipped + recovered.skipped_bytes)
      ]

  -- The packets that are decoded are the first ones, up to the limit. The loop of the synchronizer
  -- has fuel enough.
  unfoldable pub receive_recovered_stream :
      SchemaRuntime → List ℕ → Outcome (Messages × ℕ) × SchemaRuntime
  unfolding receive_recovered
  receive_recovered_stream rt stream = elim (recover_all_packets stream rt.registry_) [
    | none ↦ (failed synchronization_failed, rt)
    | some (found, packets) ↦
        if not found
        then (failed synchronization_failed, rt)
        else receive_recovered rt (take rt.reliability_config_.max_recovered_packets packets) [] 0
  ]
