-- ===== src/Schema/Runtime/Exchange.antt =====
-- What one runtime sends, another one receives.
use keydrop.Base.{
  ℕ, ◌^◌, ◌≤◌, ◌<◌, ◌≡◌, refl, sym, ap, ◌∙◌, arith, List, length, All, true, false, ok, some, Text,
}
use mathlib.Core.Path.{subst}
use keydrop.Core.Endian.{Host, little}
use keydrop.Core.BufferPool.{BufferPool}
use keydrop.Schema.Types.{SchemaDef}
use keydrop.Schema.Mapper.RoundTrip.{Typed-length, map_named_to_ordered-map_ordered_to_named}
use keydrop.Schema.Types.Distinct.{Distinct}
use keydrop.Schema.Layout.{build_packet_layout}
use keydrop.Schema.Registry.{find_by_name, find_by_message_id, find_layout_by_message_id}
use keydrop.Schema.Values.{OrderedPayload, NamedPayload}
use keydrop.Schema.Values.Wire.{Valid}
use keydrop.Schema.Mapper.{FieldMapperCode, map_ordered_to_named, map_named_to_ordered}
use keydrop.Schema.Profiler.{Ratios}
use keydrop.Schema.Stream.Changes.{Floats}
use keydrop.Schema.Validator.Accepts.{AllFit, validate_payload_values_iff}
use keydrop.Schema.Fast.Slots.{Short}
use keydrop.Schema.Dictionary.{AdaptiveDictionary}
use keydrop.Schema.Optimizer.{is_optimized_packet}
use keydrop.Schema.Runtime.{done}
use keydrop.Schema.Runtime.Codec.Layouts.{all_ids}
use keydrop.Schema.Runtime.Codec.Lockstep.{Ready}
use keydrop.Schema.Runtime.Packets.{
  encode_packet, encode_ordered_with_schema, finish_named, decode_packet,
}
use keydrop.Schema.Runtime.Packets.Exchange.{Packed, pack, decode_packet-run}
use keydrop.Schema.Runtime.Packets.Shortens.{Shipped, ship}
use keydrop.Schema.Runtime.State.{SchemaRuntime}
use keydrop.Schema.Runtime.Cache.{CacheAgrees, recached}
use keydrop.Schema.Runtime.Send.{send_ordered, send}
use keydrop.Schema.Runtime.Receive.{receive}
use keydrop.Schema.Runtime.Runs.{
  encode_ordered_with_schema-run, encode_values-run, send_ordered-run, finish_named-run,
  decode_checked-run, receive_with_schema-run, receive-run, found_by_id, AllFit-Typed,
  cached_schema, send_mapped-run, send-run,
}

-- Two runtimes with one registry, one dictionary, which is ready for `n` strings more, and
-- optimizers that are both on or both off.
pub record Linked (n : ℕ) (tx rx : SchemaRuntime) : Type 0 where
  pub cache : CacheAgrees tx
  pub same_registry : rx.registry_ ≡ tx.registry_
  pub same_dictionary : rx.dictionary_ ≡ tx.dictionary_
  pub same_optimizer : rx.optimizer_config_.enabled ≡ tx.optimizer_config_.enabled
  pub ready : Ready n tx.dictionary_

-- Where the optimizer is on, the packet of the values does not look like an optimized one.
abbrev pub Unmarked : Host → SchemaDef → OrderedPayload → SchemaRuntime → Type 0
Unmarked host schema vs tx =
    tx.optimizer_config_.enabled ≡ true
    → (packet : List ℕ)
    → (encode_packet host schema (build_packet_layout schema) vs tx.dictionary_).0 ≡ ok packet
    → is_optimized_packet packet ≡ false

-- What the sender encodes, and what the receiver makes of it.
record Delivered (host : Host) (schema : SchemaDef) (vs : OrderedPayload) (tx rx : SchemaRuntime)
    : Type 0 where
  out : List ℕ
  next : AdaptiveDictionary
  after : BufferPool
  their_after : SchemaRuntime
  named : NamedPayload
  encoded :
      encode_ordered_with_schema host schema
        (build_packet_layout schema)
        vs
        tx.optimizer_config_
        tx.dictionary_
        tx.buffer_pool_
      ≡ (ok (done out), next, after)
  received : receive host rx out ≡ (done (schema.schema_name, named), their_after)
  same : their_after.dictionary_ ≡ next
  mapped : map_ordered_to_named schema vs ≡ (FieldMapperCode.ok, named)
  back : map_named_to_ordered schema named ≡ (FieldMapperCode.ok, vs)

deliver :
    (host : Host) (schema : SchemaDef) (name : Text) (vs : OrderedPayload) (tx rx : SchemaRuntime)
    → host.order ≡ little
    → Linked (all_ids vs) tx rx
    → find_by_name tx.registry_ name ≡ some schema
    → schema.message_id < 2 ^ 16
    → length schema.fields ≤ 2040
    → Distinct schema.fields
    → AllFit schema.fields vs
    → All Valid vs
    → All Short vs
    → Unmarked host schema vs tx
    → Delivered host schema vs tx rx
deliver host schema name vs tx rx order linked found id few distinct fit valid short plain =
    let layout = build_packet_layout schema in
    let typed = AllFit-Typed schema.fields vs fit in
    let size = Typed-length schema.fields vs typed in
    let p : Packed host order schema vs tx.dictionary_ =
      pack host order schema vs tx.dictionary_ id (omega (arith, size, few)) fit valid short
        linked.ready in
    let sh : Shipped schema p.packet tx.optimizer_config_ tx.buffer_pool_ rx.optimizer_config_
        rx.buffer_pool_ =
      ship schema p.packet tx.optimizer_config_ tx.buffer_pool_ rx.buffer_pool_ rx.optimizer_config_
        p.bytes p.enough p.small few p.conforms linked.same_optimizer
        (λ on. plain on p.packet (ap (λ x. x.0) p.written)) in
    let (named, mapped, back) =
      map_named_to_ordered-map_ordered_to_named schema vs distinct typed in
    let validated = (validate_payload_values_iff schema vs).1 fit in
    let decoded =
      ap (decode_packet host schema layout (finish_named host schema layout) p.packet)
        linked.same_dictionary
      ∙ decode_packet-run host order schema (finish_named host schema layout) p.packet vs
          tx.dictionary_ p.next p.first p.behind schema.message_id p.id_read p.fields_read
      ∙ ap (λ o. (o, p.next))
          (finish_named-run host schema layout vs p.behind named validated mapped p.at_end) in
    let (by_id, laid_out) =
      subst
        (λ g.
          (find_by_message_id g schema.message_id ≡ some schema)
          × (find_layout_by_message_id g schema.message_id ≡ some layout))
        (sym linked.same_registry) (found_by_id tx schema name linked.cache.agrees found) in
    record {
      out = sh.out;
      next = p.next;
      after = sh.after;
      their_after = _;
      named = named;
      encoded =
          encode_ordered_with_schema-run host schema layout vs tx.optimizer_config_ tx.dictionary_
            p.next tx.buffer_pool_ sh.after p.packet sh.out validated p.written sh.sent;
      received =
          receive-run host rx schema sh.out sh.enough (sh.same_id ∙ p.id_at) by_id
          ∙ receive_with_schema-run host schema layout rx sh.out p.packet sh.their_after sh.restored
              laid_out
          ∙ decode_checked-run host schema layout (record rx { buffer_pool_ = sh.their_after })
              p.packet named p.next p.accepted decoded;
      same = refl;
      mapped = mapped;
      back = back;
    }

-- On little-endian machines: values that fit a registered schema, of the C++ types, with strings
-- below 65535 bytes, are sent by one runtime, and another one with the same registry, the same
-- dictionary and the optimizer on or off alike receives them under the names of the fields. Both
-- dictionaries are the same afterwards. The schema has an id of 16 bits, at most 2040 fields with
-- names of their own; what the sender has cached is the registry's; the dictionary has inverse maps,
-- free ids from its next one on, and those for the strings do not wrap. Where the optimizer is on,
-- the packet in front of it does not look like an optimized one.
pub receive-send_ordered :
    (host : Host) (schema : SchemaDef) (name : Text) (vs : OrderedPayload) (tx rx : SchemaRuntime)
    → host.order ≡ little
    → Linked (all_ids vs) tx rx
    → find_by_name tx.registry_ name ≡ some schema
    → schema.message_id < 2 ^ 16
    → length schema.fields ≤ 2040
    → Distinct schema.fields
    → AllFit schema.fields vs
    → All Valid vs
    → All Short vs
    → Unmarked host schema vs tx
    → (packet : List ℕ) × (tx' : SchemaRuntime) × (rx' : SchemaRuntime) × (named : NamedPayload)
      × (send_ordered host tx name vs ≡ (ok (done packet), tx'))
      × (receive host rx packet ≡ (done (schema.schema_name, named), rx'))
      × (map_ordered_to_named schema vs ≡ (FieldMapperCode.ok, named))
      × (rx'.dictionary_ ≡ tx'.dictionary_)
receive-send_ordered host schema name vs tx rx order linked found id few distinct fit valid short
      plain =
    let layout = build_packet_layout schema in
    let d =
      deliver host schema name vs tx rx order linked found id few distinct fit valid short plain in
    let (c, entry, hit) = cached_schema tx name schema linked.cache found in
    (
      d.out,
      _,
      d.their_after,
      d.named,
      send_ordered-run host schema layout tx (recached tx c entry) name vs hit
          ∙ encode_values-run host schema layout (recached tx c entry) vs d.next d.after d.out
              d.encoded,
      d.received,
      d.mapped,
      d.same,
    )

-- On little-endian machines: a payload by name that has a value for each field of a registered
-- schema, of its type and within its limit, is sent by one runtime, and another one, linked to it
-- as for `send_ordered`, receives a payload that has the same values for the fields. The conditions
-- on the schema, the values and the optimizer are those of `send_ordered`.
pub receive-send :
    (host : Host) (floats : Floats) (at_least : Ratios) (schema : SchemaDef) (name : Text)
    (payload : NamedPayload) (vs : OrderedPayload) (tx rx : SchemaRuntime)
    → map_named_to_ordered schema payload ≡ (FieldMapperCode.ok, vs)
    → host.order ≡ little
    → Linked (all_ids vs) tx rx
    → find_by_name tx.registry_ name ≡ some schema
    → schema.message_id < 2 ^ 16
    → length schema.fields ≤ 2040
    → Distinct schema.fields
    → AllFit schema.fields vs
    → All Valid vs
    → All Short vs
    → Unmarked host schema vs tx
    → (packet : List ℕ) × (tx' : SchemaRuntime) × (rx' : SchemaRuntime) × (named : NamedPayload)
      × (send host floats at_least tx name payload ≡ (ok (done packet), tx'))
      × (receive host rx packet ≡ (done (schema.schema_name, named), rx'))
      × (map_named_to_ordered schema named ≡ (FieldMapperCode.ok, vs))
receive-send host floats at_least schema name payload vs tx rx given order linked found id few
      distinct fit valid short plain =
    let d =
      deliver host schema name vs tx rx order linked found id few distinct fit valid short plain in
    let (c, entry, hit) = cached_schema tx name schema linked.cache found in
    let (tx', sent) =
      send_mapped-run host floats at_least schema (recached tx c entry) name payload vs d.next
        d.after d.out given d.encoded in
    (
      d.out,
      tx',
      d.their_after,
      d.named,
      send-run host floats at_least schema tx (recached tx c entry) name payload hit ∙ sent,
      d.received,
      d.back,
    )
