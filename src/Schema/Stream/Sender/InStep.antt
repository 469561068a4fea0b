-- ===== src/Schema/Stream/Sender/InStep.antt =====
-- The sequences of a sender and of a receiver, packet by packet.
use keydrop.Base.{
  ℕ, ◌+◌, ◌%◌, ◌^◌, ◌≡◌, refl, sym, ap, ◌∙◌, ◌⊎◌, inl, inr, arith, Bool, true, false, ◌&&◌,
  Bool-cases, ltb, leb,
}
use keydrop.Base.{
  List, Option, none, some, Option-cases, length, find, assign, find-assign, Text, text_key,
  text_eq_iff,
}
use mathlib.Core.Path.{subst}
use keydrop.Schema.Types.{SchemaDef}
use keydrop.Schema.Values.{NamedPayload}
use keydrop.Schema.Stream.Changes.{Floats, payload_equals}
use keydrop.Schema.Stream.Frames.{build_delta_packet}
use keydrop.Schema.Stream.Sender.{
  StreamOptimizer, StreamOptimizationOutput, Sending, count_of, plain_output, send_delta,
  send_unchanged, send_keyframe, few_changes, try_delta, choose, resynchronize, record_sent,
  optimize_outgoing,
}

pub count_of-assign :
    (name : Text) (n : ℕ) (m : List (Text × ℕ)) → count_of name (assign name n m) ≡ n
unfolding count_of
count_of-assign name n m = ground (arith, find-assign name name n m, text_eq_iff name name)

-- The next sequence of the sender is the one that the receiver expects.
abbrev pub InStep : Text → StreamOptimizer → StreamOptimizer → Type 0
InStep name s r = count_of name s.delta_seq_by_schema ≡ count_of name r.expected_delta_seq_by_schema

module _ (floats : Floats) (schema : SchemaDef) (name : Text) (payload : NamedPayload)
    (encoded : List ℕ) (o : StreamOptimizer) where
  abbrev pub seq : ℕ
  seq = count_of name o.delta_seq_by_schema

  abbrev Full : Sending → Type 0
  Full (o', out) =
      (out.used_delta_packet ≡ false)
      × (out.emit_now ≡ true)
      × (out.packet ≡ encoded)
      × (o'.config ≡ o.config)
      × (out.keyframe ≡ true → count_of name o'.delta_seq_by_schema ≡ 0)

  abbrev Delta : NamedPayload → Sending → Type 0
  Delta previous (o', out) =
      (out.used_delta_packet ≡ true)
      × (out.emit_now ≡ true)
      × (build_delta_packet floats schema previous payload seq ≡ some out.packet)
      × (o'.config ≡ o.config)
      × (count_of name o'.delta_seq_by_schema ≡ (seq + 1) % 2 ^ 16)

  module _ (aggressive : Bool) where
    abbrev pub out : StreamOptimizationOutput
    out = plain_output aggressive encoded

    send_delta-Delta :
        (previous : NamedPayload) (delta : List ℕ)
        → build_delta_packet floats schema previous payload seq ≡ some delta
        → Delta previous (send_delta floats schema name payload encoded (o, out) seq delta)
    unfolding send_delta
    send_delta-Delta previous delta built =
        (refl, refl, built, refl, count_of-assign name ((seq + 1) % 2 ^ 16) o.delta_seq_by_schema)

    plain-Full : Full (o, out)
    plain-Full = (refl, refl, refl, refl, λ h. absurd (ground arith))

    send_keyframe-Full : Full (send_keyframe floats schema name payload encoded (o, out))
    unfolding send_keyframe
    send_keyframe-Full = (refl, refl, refl, refl, λ h. count_of-assign name 0 o.delta_seq_by_schema)

    abbrev pub unchanged : NamedPayload → Sending
    unchanged previous = send_unchanged floats schema name payload encoded (o, out) previous

    abbrev pub keyframed : Sending
    keyframed = send_keyframe floats schema name payload encoded (o, out)

    abbrev pub tried : NamedPayload → Sending
    tried previous = try_delta floats schema name payload encoded (o, out) previous

    abbrev pub chosen : Option NamedPayload → Sending
    chosen last = choose floats schema name payload encoded (o, out) last

    abbrev sent : List ℕ → Sending
    sent delta = send_delta floats schema name payload encoded (o, out) seq delta

    -- What was chosen is a full packet, or a delta packet from the last payload.
    abbrev Chose : NamedPayload → Sending → Type 0
    Chose previous s = Full s ⊎ Delta previous s

    plain-Chose : (previous : NamedPayload) (s : Sending) → s ≡ (o, out) → Chose previous s
    plain-Chose previous s e = inl (subst Full (sym e) plain-Full)

    delta-Chose :
        (previous : NamedPayload) (s : Sending) (delta : List ℕ)
        → build_delta_packet floats schema previous payload seq ≡ some delta
        → s ≡ sent delta
        → Chose previous s
    delta-Chose previous s delta built e =
        inr (subst (Delta previous) (sym e) (send_delta-Delta previous delta built))

    send_unchanged-Chose :
        (previous : NamedPayload)
        → o.config.enable_delta_packets ≡ true
        → Chose previous (unchanged previous)
    unfolding send_unchanged
    send_unchanged-Chose previous on =
        elim (Option-cases (build_delta_packet floats schema previous payload seq)) [
          | inl missing ↦ plain-Chose previous (unchanged previous) (ground (arith, on, missing))
          | inr (delta, built) ↦
              delta-Chose previous (unchanged previous) delta built (ground (arith, on, built))
        ]

    try_delta-Chose : (previous : NamedPayload) → Chose previous (tried previous)
    unfolding try_delta
    try_delta-Chose previous =
        elim (Bool-cases (few_changes floats schema name payload encoded o previous)) [
          | inr many ↦ plain-Chose previous (tried previous) (ground (arith, many))
          | inl few ↦ elim (Option-cases (build_delta_packet floats schema previous payload seq)) [
            | inl missing ↦ plain-Chose previous (tried previous) (ground (arith, few, missing))
            | inr (delta, built) ↦ elim (Bool-cases (ltb (length delta) (length encoded))) [
              | inl shorter ↦
                  delta-Chose previous (tried previous) delta built
                    (ground (arith, few, built, shorter))
              | inr longer ↦
                  plain-Chose previous (tried previous) (ground (arith, few, built, longer))
            ]
          ]
        ]

    choose-first : o.config.enable_delta_packets ≡ true → Full (chosen none)
    unfolding choose
    choose-first on =
        subst Full {x = keyframed} {y = chosen none} (ground (arith, on)) send_keyframe-Full

    choose-Chose :
        (previous : NamedPayload)
        → o.config.enable_delta_packets ≡ true
        → Chose previous (chosen (some previous))
    unfolding choose
    choose-Chose previous on =
        elim (Bool-cases (o.config.enable_packet_reuse && payload_equals floats previous payload)) [
          | inl same ↦
              subst (Chose previous) {x = unchanged previous} {y = chosen (some previous)}
                (ground (arith, same, on)) (send_unchanged-Chose previous on)
          | inr changed ↦
              elim (Bool-cases
                (leb o.config.keyframe_interval (count_of name o.record_count_by_schema))) [
                  | inl due ↦
                      subst (Chose previous) {x = keyframed} {y = chosen (some previous)}
                        (ground (arith, on, changed, due)) (inl send_keyframe-Full)
                  | inr not_due ↦ elim (Bool-cases (o.config.enable_delta_updates && aggressive)) [
                    | inl trying ↦
                        subst (Chose previous) {x = tried previous} {y = chosen (some previous)}
                          (ground (arith, on, changed, not_due, trying)) (try_delta-Chose previous)
                    | inr idle ↦
                        plain-Chose previous (chosen (some previous))
                          (ground (arith, on, changed, not_due, idle))
                  ]
                ]
        ]

  abbrev pub resynchronized : Sending → Sending
  resynchronized s = resynchronize floats schema name payload encoded s

  abbrev pub finished : ℕ → Sending → Sending
  finished n s = record_sent floats schema name payload encoded n (resynchronized s)

  -- Recording leaves the sequences and what is sent, and keeps the payload.
  pub record_sent-keeps :
      (n : ℕ) (s : Sending)
      → (find name (record_sent floats schema name payload encoded n s).0.last_payload_by_schema
          ≡ some payload)
        × ((record_sent floats schema name payload encoded n s).1 ≡ s.1)
        × ((record_sent floats schema name payload encoded n s).0.delta_seq_by_schema
            ≡ s.0.delta_seq_by_schema)
  unfolding record_sent
  record_sent-keeps n (o', out') = (
    ground (arith, find-assign name name payload o'.last_payload_by_schema, text_eq_iff name name),
    refl,
    refl,
  )

  resynchronize-Full :
      (s : Sending)
      → o.config.enable_delta_packets ≡ true
      → Full s
      → ((resynchronized s).1 ≡ s.1) × (count_of name (resynchronized s).0.delta_seq_by_schema ≡ 0)
  unfolding resynchronize
  resynchronize-Full (o', out') on (full, now, packet, config, key) =
      let delta_mode : o'.config.enable_delta_packets ≡ true =
        ap (λ c. c.enable_delta_packets) config ∙ on in
      elim (Bool-cases out'.keyframe) [
        | inl keyframe ↦
            let same : resynchronized (o', out') ≡ (o', out') = ground (arith, keyframe) in
            (
              ap (λ s. s.1) same,
              ap (λ s. count_of name s.0.delta_seq_by_schema) same ∙ key keyframe,
            )
        | inr no_keyframe ↦
            let again : resynchronized (o', out')
                ≡ (record o' { delta_seq_by_schema = assign name 0 o'.delta_seq_by_schema }, out') =
              ground (arith, no_keyframe, full, now, delta_mode) in
            (
              ap (λ s. s.1) again,
              ap (λ s. count_of name s.0.delta_seq_by_schema) again
                  ∙ count_of-assign name 0 o'.delta_seq_by_schema,
            )
      ]

  resynchronize-Delta : (s : Sending) → s.1.used_delta_packet ≡ true → resynchronized s ≡ s
  unfolding resynchronize
  resynchronize-Delta (o', out') used = ground (arith, used)

  -- What is sent from a state whose last payload is `last`: a full packet, behind which the sequence
  -- starts again, or a delta packet from the last payload, behind which it goes on.
  abbrev pub Sent : Option NamedPayload → Sending → Type 0
  Sent last (o', out') =
      (out'.emit_now ≡ true)
      × (find name o'.last_payload_by_schema ≡ some payload)
      × (((out'.used_delta_packet ≡ false)
            × (out'.packet ≡ encoded)
            × (count_of name o'.delta_seq_by_schema ≡ 0))
          ⊎ ((previous : NamedPayload) × (last ≡ some previous)
              × (out'.used_delta_packet ≡ true)
              × (build_delta_packet floats schema previous payload seq ≡ some out'.packet)
              × (count_of name o'.delta_seq_by_schema ≡ (seq + 1) % 2 ^ 16)))

  finished-Full :
      (n : ℕ) (last : Option NamedPayload) (s : Sending)
      → o.config.enable_delta_packets ≡ true
      → Full s
      → Sent last (finished n s)
  finished-Full n last s on full =
      let (keeps, out_same, seq_same) = record_sent-keeps n (resynchronized s) in
      let (out_again, start) = resynchronize-Full s on full in
      let same : (finished n s).1 ≡ s.1 = out_same ∙ out_again in
      (
        ap (λ u. u.emit_now) same ∙ full.1,
        keeps,
        inl (
          ap (λ u. u.used_delta_packet) same ∙ full.0,
          ap (λ u. u.packet) same ∙ full.2,
          ap (count_of name) seq_same ∙ start,
        ),
      )

  finished-Delta :
      (n : ℕ) (previous : NamedPayload) (s : Sending)
      → Delta previous s
      → Sent (some previous) (finished n s)
  finished-Delta n previous s (used, now, built, config, next) =
      let (keeps, out_same, seq_same) = record_sent-keeps n (resynchronized s) in
      let again = resynchronize-Delta s used in
      let same : (finished n s).1 ≡ s.1 = out_same ∙ ap (λ t. t.1) again in
      (
        ap (λ u. u.emit_now) same ∙ now,
        keeps,
        inr (
          previous,
          refl,
          ap (λ u. u.used_delta_packet) same ∙ used,
          built ∙ ap (λ u. some u.packet) (sym same),
          ap (count_of name) (seq_same ∙ ap (λ t. t.0.delta_seq_by_schema) again) ∙ next,
        ),
      )

  -- In delta mode every payload is sent, as a full packet or as a delta packet from the last payload.
  pub optimize_outgoing-Sent :
      o.config.enabled ≡ true
      → o.config.enable_delta_packets ≡ true
      → Sent
          (find name o.last_payload_by_schema)
          (optimize_outgoing floats schema name payload encoded o)
  unfolding optimize_outgoing
  optimize_outgoing-Sent enabled on =
      let n = count_of name o.sample_count_by_schema in
      let aggressive = leb o.config.aggressive_after_samples n in
      elim (Option-cases (find name o.last_payload_by_schema)) [
        | inl first ↦
            let run : finished n (chosen aggressive none)
                ≡ optimize_outgoing floats schema name payload encoded o =
              ground (arith, enabled, first) in
            subst (Sent (find name o.last_payload_by_schema)) run
              (finished-Full n _ (chosen aggressive none) on (choose-first aggressive on))
        | inr (previous, found) ↦
            let run : finished n (chosen aggressive (some previous))
                ≡ optimize_outgoing floats schema name payload encoded o =
              ground (arith, enabled, found) in
            subst (Sent (find name o.last_payload_by_schema)) run (
              subst (λ l. Sent l (finished n (chosen aggressive (some previous)))) (sym found)
                (elim (choose-Chose aggressive previous on) [
                  | inl full ↦
                      finished-Full n (some previous) (chosen aggressive (some previous)) on full
                  | inr delta ↦ finished-Delta n previous (chosen aggressive (some previous)) delta
                ]))
      ]
