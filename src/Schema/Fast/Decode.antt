-- ===== src/Schema/Fast/Decode.antt =====
-- What the fast codec reads from a packet of values.
use keydrop.Base.{ℕ, ◌%◌, ◌^◌, ◌≤◌, ◌<◌, ◌≡◌, ◌≢◌, refl, sym, ap, ◌∙◌, arith, false}
use keydrop.Base.{List, [], ◌++◌, Option, some, length, All, le_bytes, ok, get_or}
use keydrop.Base.{read_u16_le-le_bytes}
use mathlib.Core.Path.{subst}
use keydrop.Core.Endian.{Host, little}
use keydrop.Core.Reader
use keydrop.Core.Reader.{M, PacketReader, ◌>>=◌, return}
use keydrop.Core.Packet.Read.{At, Reads, >>=-ok}
use keydrop.Core.Packet.Read.{read_u16-Reads}
use keydrop.Schema.Types.{SchemaDef}
use keydrop.Schema.Layout.Fields.{build_packet_layout-Describes}
use keydrop.Schema.Values.{OrderedPayload}
use keydrop.Schema.Values.Wire.{Valid, values_wire}
use keydrop.Schema.Mapper.RoundTrip.{Typed}
use keydrop.Schema.Registry.{FastCodec, fast_codec}
use keydrop.Schema.Dictionary.{AdaptiveDictionary}
use keydrop.Schema.Optimizer.{is_optimized_packet}
use keydrop.Schema.Fast.{FastCodecCode, FastDecodedField, batch_marker, refused}
use keydrop.Schema.Fast.{decode_fields, finish, decode_plain, decode}
use keydrop.Schema.Fast.Encode.{packet_of}
use keydrop.Schema.Fast.Slots.{AllCarry, Short, decode_fields-Reads, finish-empty}

module _ (host : Host) (order : host.order ≡ little) (widen : ℕ → ℕ) where
  decode_plain-walk :
      (codec : FastCodec) (d : AdaptiveDictionary) (p : List ℕ) (slots : List FastDecodedField)
      (x : ℕ) (a : Option (List FastDecodedField)) (r r' : PacketReader)
      → Reader.read_u16 host (Reader.create p) ≡ (ok x, r)
      → decode_fields host widen d codec.layout.fields slots r ≡ (ok a, r')
      → decode_plain host widen codec d p slots ≡ finish codec (ok a, r')
  unfolding decode_plain
  decode_plain-walk codec d p slots x a r r' e e' = ap (finish codec) (
      >>=-ok (Reader.read_u16 host) (λ id. decode_fields host widen d codec.layout.fields slots) e
      ∙ e')

  -- The walk of `decode_plain` over a packet of values.
  decode_plain-run :
      (schema : SchemaDef) (d : AdaptiveDictionary) (vs : OrderedPayload)
      (slots : List FastDecodedField)
      → Typed schema.fields vs
      → All Valid vs
      → All Short vs
      → schema.message_id < 2 ^ 16
      → length (packet_of schema vs) < 2 ^ 63
      → length schema.fields ≤ length slots
      → (fields : List FastDecodedField) × (decode_plain host widen
            (fast_codec schema)
            d
            (packet_of schema vs)
            slots
          ≡ record {
            code = FastCodecCode.ok;
            out_count = length schema.fields;
            fields = some fields;
          })
        × AllCarry widen vs fields
  unfolding Reader.create fast_codec
  decode_plain-run schema d vs slots t h s id small room =
      let start : At (Reader.create (packet_of schema vs))
          (le_bytes 2 schema.message_id ++ values_wire vs) =
        record { within = omega arith; small = omega arith; follows = refl } in
      let (r, e, left, same) =
        read_u16-Reads (values_wire vs) (Reader.create (packet_of schema vs)) host order
          schema.message_id id start in
      let (fields, (r', e', left', same'), carried) =
        subst
          (λ ls.
            (fields : List FastDecodedField) × Reads (decode_fields host widen d ls slots) r
              (some fields) []
            × AllCarry widen vs fields)
          (sym (build_packet_layout-Describes schema).each)
          (decode_fields-Reads host order widen d schema.fields [] vs slots r t h s room left) in
      (
        fields,
        decode_plain-walk (fast_codec schema) d (packet_of schema vs) slots schema.message_id
              (some fields) r r' e e'
            ∙ finish-empty host order widen (fast_codec schema) fields r' left',
        carried,
      )

-- The bytes in front of the packet of a schema.
packet-front :
    (schema : SchemaDef) (vs : OrderedPayload)
    → (get_or (packet_of schema vs) 0 0 ≡ schema.message_id % 256)
      × (2 ≤ length (packet_of schema vs))
unfolding le_bytes
packet-front schema vs = (refl, omega arith)

module _ (host : Host) (order : host.order ≡ little) (widen : ℕ → ℕ) (schema : SchemaDef)
    (d : AdaptiveDictionary) (vs : OrderedPayload) (slots : List FastDecodedField)
    (t : Typed schema.fields vs) (valid : All Valid vs) (short : All Short vs)
    (id : schema.message_id < 2 ^ 16) (small : length (packet_of schema vs) < 2 ^ 63)
    (room : length schema.fields ≤ length slots) where
  decode-batch :
      schema.message_id % 256 ≡ batch_marker
      → decode host widen (fast_codec schema) d (packet_of schema vs) (some slots)
        ≡ refused FastCodecCode.unsupported_envelope
  unfolding decode fast_codec
  decode-batch e = ground (arith, packet-front schema vs, e, room)

  decode-is_plain :
      schema.message_id % 256 ≢ batch_marker
      → is_optimized_packet (packet_of schema vs) ≡ false
      → decode host widen (fast_codec schema) d (packet_of schema vs) (some slots)
        ≡ decode_plain host widen (fast_codec schema) d (packet_of schema vs) slots
  unfolding decode fast_codec is_optimized_packet
  decode-is_plain ne plain =
      let same =
        read_u16_le-le_bytes (packet_of schema vs) (values_wire vs) 0 schema.message_id id refl in
      ground (arith, packet-front schema vs, ne, room, plain, same)

-- On a little-endian machine, with an id of 16 bits, a packet of fewer than 2 ^ 63 bytes, a slot
-- for each field, and no string of 65535 bytes: the fast codec reads the packet of valid values of
-- the right types back, whatever stood in the slots. It reports a field for each, with the integers
-- extended to 64 bits, the floats, and views of the strings and byte vectors, where the low byte of
-- the id is not the mark of a batch and the third byte of the packet not the mark of an optimized
-- one. Where the low byte of the id is the mark of a batch, it refuses the packet.
pub decode-packet_of :
    (host : Host) (widen : ℕ → ℕ) (schema : SchemaDef) (d : AdaptiveDictionary)
    (vs : OrderedPayload) (slots : List FastDecodedField)
    → host.order ≡ little
    → Typed schema.fields vs
    → All Valid vs
    → All Short vs
    → schema.message_id < 2 ^ 16
    → length (packet_of schema vs) < 2 ^ 63
    → length schema.fields ≤ length slots
    → (schema.message_id % 256 ≢ batch_marker
        → is_optimized_packet (packet_of schema vs) ≡ false
        → (fields : List FastDecodedField) × (decode host widen
              (fast_codec schema)
              d
              (packet_of schema vs)
              (some slots)
            ≡ record {
              code = FastCodecCode.ok;
              out_count = length schema.fields;
              fields = some fields;
            })
          × AllCarry widen vs fields)
      × (schema.message_id % 256 ≡ batch_marker
          → decode host widen (fast_codec schema) d (packet_of schema vs) (some slots)
            ≡ refused FastCodecCode.unsupported_envelope)
decode-packet_of host widen schema d vs slots order t valid short id small room = (
  λ ne plain.
      let (fields, run, carried) =
        decode_plain-run host order widen schema d vs slots t valid short id small room in
      (
        fields,
        decode-is_plain host order widen schema d vs slots t valid short id small room ne plain
            ∙ run,
        carried,
      ),
  decode-batch host order widen schema d vs slots t valid short id small room,
)
