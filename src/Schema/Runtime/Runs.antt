-- ===== src/Schema/Runtime/Runs.antt =====
-- What the steps of sending and of receiving give where each of them succeeds.
use keydrop.Base.{
  ℕ, [], ◌∷◌, ◌≤◌, ◌≡◌, refl, sym, ap, ◌∙◌, inl, inr, arith, List, length, true, false, ok, some,
  Option, Text, read_u16_le, ltb,
}
use mathlib.Core.Option
use keydrop.Core.Endian.{Host}
use keydrop.Core.BufferPool.{BufferPool}
use keydrop.Core.Reader
use keydrop.Core.Reader.{PacketReader}
use keydrop.Schema.Types.{FieldDef, SchemaDef}
use keydrop.Schema.Mapper.RoundTrip.{Typed}
use keydrop.Schema.Layout.{PacketLayout, build_packet_layout}
use keydrop.Schema.Registry.{find_by_name, find_by_message_id, find_layout_by_message_id}
use keydrop.Schema.Registry.Agrees.{Agrees}
use keydrop.Schema.Registry.Registered.{find_layout-find_by}
use keydrop.Schema.Values.{OrderedPayload, NamedPayload}
use keydrop.Schema.Mapper.{FieldMapperCode, is_mapped, map_ordered_to_named, map_named_to_ordered}
use keydrop.Schema.Profiler.{Ratios}
use keydrop.Schema.Stream.Changes.{Floats}
use keydrop.Schema.Validator.{
  SchemaValidationCode, is_accepted, validate_payload_values, validate_message_id,
}
use keydrop.Schema.Validator.Accepts.{AllFit}
use keydrop.Schema.Dictionary.{AdaptiveDictionary}
use keydrop.Schema.Optimizer.{RuntimeOptimizerConfig}
use keydrop.Reliability.Keydrop.{check_layout}
use keydrop.Schema.PayloadPool.{acquire_ordered, release_ordered}
use keydrop.Schema.Runtime.{done}
use keydrop.Schema.Runtime.Packets.{
  shorten, encode_packet, encode_ordered_with_schema, finish_named, decode_packet, restore,
}
use keydrop.Schema.Runtime.State.{SchemaRuntime, find_cached, profiled}
use keydrop.Schema.Runtime.Cache.{CacheAgrees, recached, find_cached-Finds, some-eq}
use keydrop.Schema.Runtime.Send.{
  encode_values, send_ordered, holding, after_encoding, encode_mapped, send_mapped, send,
}
use keydrop.Schema.Runtime.Receive.{decode_checked, receive_with_schema, receive}

module _ (host : Host) (schema : SchemaDef) (layout : PacketLayout) where
  pub encode_ordered_with_schema-run :
      (vs : OrderedPayload) (config : RuntimeOptimizerConfig) (d next : AdaptiveDictionary)
      (pool after : BufferPool) (packet out : List ℕ)
      → validate_payload_values schema vs ≡ SchemaValidationCode.ok
      → encode_packet host schema layout vs d ≡ (ok packet, next)
      → shorten schema packet config pool ≡ (done out, after)
      → encode_ordered_with_schema host schema layout vs config d pool
        ≡ (ok (done out), next, after)
  unfolding encode_ordered_with_schema is_accepted
  encode_ordered_with_schema-run vs config d next pool after packet out valid one two =
      rw (valid, one, two, encode_ordered_with_schema) (ap (λ x. (ok (done out), x.1, after)) one)

  pub encode_values-run :
      (rt : SchemaRuntime) (vs : OrderedPayload) (next : AdaptiveDictionary) (after : BufferPool)
      (out : List ℕ)
      → encode_ordered_with_schema host schema layout vs rt.optimizer_config_ rt.dictionary_
          rt.buffer_pool_
        ≡ (ok (done out), next, after)
      → encode_values host rt (schema, layout) vs
        ≡ (ok (done out), record rt { dictionary_ = next; buffer_pool_ = after })
  unfolding encode_values
  encode_values-run rt vs next after out run = rw (run, encode_values) refl

  pub send_ordered-run :
      (rt rt' : SchemaRuntime) (name : Text) (vs : OrderedPayload)
      → find_cached rt name ≡ (done (schema, layout), rt')
      → send_ordered host rt name vs ≡ encode_values host rt' (schema, layout) vs
  unfolding send_ordered
  send_ordered-run rt rt' name vs found =
      rw (found, send_ordered) (ap (λ x. encode_values host x.1 (schema, layout) vs) found)

  pub finish_named-run :
      (vs : OrderedPayload) (r : PacketReader) (named : NamedPayload)
      → validate_payload_values schema vs ≡ SchemaValidationCode.ok
      → map_ordered_to_named schema vs ≡ (FieldMapperCode.ok, named)
      → Reader.empty r ≡ true
      → finish_named host schema layout vs r ≡ done (schema.schema_name, named)
  unfolding finish_named is_accepted is_mapped
  finish_named-run vs r named valid mapped end = rw (valid, mapped, end, finish_named) refl

  pub decode_checked-run :
      (rt : SchemaRuntime) (packet : List ℕ) (named : NamedPayload) (next : AdaptiveDictionary)
      → (check_layout packet layout).ok ≡ true
      → decode_packet host schema layout (finish_named host schema layout) packet rt.dictionary_
        ≡ (done (schema.schema_name, named), next)
      → decode_checked host rt schema layout packet ≡ (
        done (schema.schema_name, named),
        record rt {
          dictionary_ = next;
          payload_pool_ =
              let (slot, pool) = acquire_ordered rt.payload_pool_ (length layout.fields) in
              release_ordered pool slot;
        },
      )
  unfolding decode_checked
  decode_checked-run rt packet named next accepted run = rw (accepted, run, decode_checked) refl

  pub receive_with_schema-run :
      (rt : SchemaRuntime) (out packet : List ℕ) (after : BufferPool)
      → restore rt.optimizer_config_ schema out rt.buffer_pool_ ≡ (done packet, after)
      → find_layout_by_message_id rt.registry_ schema.message_id ≡ some layout
      → receive_with_schema host rt schema out
        ≡ decode_checked host (record rt { buffer_pool_ = after }) schema layout packet
  unfolding receive_with_schema
  receive_with_schema-run rt out packet after restored found =
      rw (restored, found, receive_with_schema)
        (ap (λ x. decode_checked host (record rt { buffer_pool_ = x.1 }) schema layout packet)
          restored)

pub same_message_id :
    (schema : SchemaDef) → validate_message_id schema schema.message_id ≡ SchemaValidationCode.ok
unfolding validate_message_id
same_message_id schema = ground arith

pub receive-run :
    (host : Host) (rt : SchemaRuntime) (schema : SchemaDef) (out : List ℕ)
    → 2 ≤ length out
    → read_u16_le out 0 ≡ schema.message_id
    → find_by_message_id rt.registry_ schema.message_id ≡ some schema
    → receive host rt out ≡ receive_with_schema host rt schema out
unfolding receive is_accepted
receive-run host rt schema out two id found =
    let long : ltb (length out) 2 ≡ false = ground (arith, two) in
    let there : find_by_message_id rt.registry_ (read_u16_le out 0) ≡ some schema =
      ap (find_by_message_id rt.registry_) id ∙ found in
    let valid : validate_message_id schema (read_u16_le out 0) ≡ SchemaValidationCode.ok =
      ap (validate_message_id schema) id ∙ same_message_id schema in
    rw (long, there, valid, receive) refl

-- What the registry finds by the id of a schema that it has under a name.
pub found_by_id :
    (rt : SchemaRuntime) (schema : SchemaDef) (name : Text)
    → Agrees rt.registry_
    → find_by_name rt.registry_ name ≡ some schema
    → (find_by_message_id rt.registry_ schema.message_id ≡ some schema)
      × (find_layout_by_message_id rt.registry_ schema.message_id
          ≡ some (build_packet_layout schema))
unfolding find_by_message_id find_by_name
found_by_id rt schema name agrees e =
    let (named, id) = agrees.named name schema e in
    let by_id : find_by_message_id rt.registry_ schema.message_id ≡ some schema =
      rw (id, find_by_message_id) e in
    (
      by_id,
      (find_layout-find_by rt.registry_ name schema.message_id agrees).2
          ∙ ap (Option.map build_packet_layout) by_id,
    )

pub AllFit-Typed : (fs : List FieldDef) (vs : OrderedPayload) → AllFit fs vs → Typed fs vs
AllFit-Typed [] [] h = tt
AllFit-Typed [] (v ∷ vs) h = elim h [ ]
AllFit-Typed (f ∷ fs) [] h = elim h [ ]
AllFit-Typed (f ∷ fs) (v ∷ vs) (one, h) = (one.0, AllFit-Typed fs vs h)

-- A schema that is registered is found by `send`, with its layout.
pub cached_schema :
    (rt : SchemaRuntime) (name : Text) (schema : SchemaDef)
    → CacheAgrees rt
    → find_by_name rt.registry_ name ≡ some schema
    → (c : Text) × (entry : Option (SchemaDef × PacketLayout)) × (find_cached rt name
        ≡ (done (schema, build_packet_layout schema), recached rt c entry))
cached_schema rt name schema h found = elim (find_cached-Finds rt name h) [
  | inl (s, e, c, entry, run, agrees) ↦ (
    c,
    entry,
    run
        ∙ ap (λ s'. (done (s', build_packet_layout s'), recached rt c entry))
            (some-eq (sym e ∙ found)),
  )
  | inr (absent, run) ↦ absurd (cc (absent, found))
]

module _ (host : Host) (floats : Floats) (at_least : Ratios) (schema : SchemaDef) where
  pub send_mapped-run :
      (rt : SchemaRuntime) (name : Text) (payload : NamedPayload) (vs : OrderedPayload)
      (next : AdaptiveDictionary) (after : BufferPool) (out : List ℕ)
      → map_named_to_ordered schema payload ≡ (FieldMapperCode.ok, vs)
      → encode_ordered_with_schema host schema
          (build_packet_layout schema)
          vs
          rt.optimizer_config_
          rt.dictionary_
          rt.buffer_pool_
        ≡ (ok (done out), next, after)
      → (rt' : SchemaRuntime) × (send_mapped host floats at_least rt name payload
            (schema, build_packet_layout schema)
          ≡ (ok (done out), rt'))
  unfolding send_mapped encode_mapped after_encoding
  send_mapped-run rt name payload vs next after out mapped run =
      let layout = build_packet_layout schema in
      let slot = (acquire_ordered rt.payload_pool_ (length schema.fields)).0 in
      let pool = (acquire_ordered rt.payload_pool_ (length schema.fields)).1 in
      let back : SchemaRuntime = record rt {
        payload_pool_ = release_ordered pool (holding slot vs);
      } in
      (
        profiled floats at_least (record back { dictionary_ = next; buffer_pool_ = after }) name
            payload,
        ap (encode_mapped host floats at_least rt name payload (schema, layout)) mapped
            ∙ ap (after_encoding host floats at_least name payload)
                (encode_values-run host schema layout back vs next after out run),
      )

  pub send-run :
      (rt rt' : SchemaRuntime) (name : Text) (payload : NamedPayload)
      → find_cached rt name ≡ (done (schema, build_packet_layout schema), rt')
      → send host floats at_least rt name payload
        ≡ send_mapped host floats at_least rt' name payload (schema, build_packet_layout schema)
  unfolding send
  send-run rt rt' name payload found =
      rw (found, send)
        (ap
          (λ x.
            send_mapped host floats at_least x.1 name payload (schema, build_packet_layout schema))
          found)
