-- ===== src/Schema/Runtime/Packets/Exchange.antt =====
-- A packet written and read with the same dictionary.
use keydrop.Base.{
  ℕ, ◌+◌, ◌^◌, ◌≤◌, ◌<◌, ◌≡◌, refl, sym, ap, ◌∙◌, arith, List, [], ◌++◌, length, All, IsByte, drop,
  true, le_bytes, le_bytes-IsByte, length-le_bytes, length-append, All-append, append-nil,
  drop-append, read_u16_le, read_u16_le-le_bytes, ok,
}
use mathlib.Core.Path.{subst}
use keydrop.Core.Endian.{Host, little}
use keydrop.Core.Encoder
use keydrop.Core.Builder
use keydrop.Core.Buffer
use keydrop.Core.Encoder.{Encoder}
use keydrop.Core.Reader
use keydrop.Core.Reader.{PacketReader}
use keydrop.Core.Packet.Write.{content, write_u16-Appends}
use keydrop.Core.Packet.Read.{At, read_u16-Reads, remaining-At}
use keydrop.Schema.Types.{SchemaDef}
use keydrop.Schema.Layout.{build_packet_layout}
use keydrop.Schema.Layout.Fields.{descriptions, build_packet_layout-Describes}
use keydrop.Schema.Values.{OrderedPayload}
use keydrop.Schema.Values.Wire.{Valid}
use keydrop.Schema.Validator.Accepts.{AllFit}
use keydrop.Schema.Fast.Slots.{Short}
use keydrop.Reliability.Keydrop.{check_layout, check_keydrop_packet}
use keydrop.Reliability.Keydrop.Conforms.{Conforms}
use keydrop.Reliability.Keydrop.Packets.{check_keydrop_packet_iff}
use keydrop.Schema.Dictionary.{AdaptiveDictionary}
use keydrop.Schema.Stream.Frames.{blank_encoder}
use keydrop.Schema.Runtime.{Outcome}
use keydrop.Schema.Runtime.Codec.{encode_layout, decode_layout, estimate_encoded_packet_size}
use keydrop.Schema.Runtime.Codec.Lockstep.{Ready}
use keydrop.Schema.Runtime.Codec.Layouts.{all_ids, Carried, carry}
use keydrop.Schema.Runtime.Packets.{encode_packet, encode_fields_behind, seal, decode_packet}

module _ (host : Host) (order : host.order ≡ little) (schema : SchemaDef) where
  -- The packet that is written with a dictionary, what the detector and a reader with the same
  -- dictionary make of it, and the dictionary that both go on with.
  pub record Packed (vs : OrderedPayload) (d : AdaptiveDictionary) : Type 0 where
    pub packet : List ℕ
    pub next : AdaptiveDictionary
    pub first : PacketReader
    pub behind : PacketReader
    pub written : encode_packet host schema (build_packet_layout schema) vs d ≡ (ok packet, next)
    pub bytes : All IsByte packet
    pub enough : 2 ≤ length packet
    pub id_at : read_u16_le packet 0 ≡ schema.message_id
    pub small : length packet < 2 ^ 63
    pub conforms : Conforms (descriptions [] schema.fields) (drop 2 packet)
    pub accepted : (check_layout packet (build_packet_layout schema)).ok ≡ true
    pub at_end : Reader.empty behind ≡ true
    pub id_read : Reader.read_u16 host (Reader.create packet) ≡ (ok schema.message_id, first)
    pub fields_read :
        decode_layout host (build_packet_layout schema).fields d first ≡ (ok vs, behind, next)
    pub ready : Ready 0 next

  starts_empty :
      (n : ℕ) (header : List ℕ) → content (Encoder.reserve blank_encoder n) ++ header ≡ header
  unfolding Encoder.reserve Builder.reserve Buffer.reserve
  starts_empty n header = refl

  at_start :
      (packet rest : List ℕ)
      → length packet < 2 ^ 63
      → packet ≡ rest
      → At (Reader.create packet) rest
  unfolding Reader.create
  at_start packet rest small e = record {
    within = omega arith;
    small = omega (arith, small);
    follows = e;
  }

  ends : (r : PacketReader) → At r [] → Reader.empty r ≡ true
  unfolding Reader.empty
  ends r at = ground (arith, remaining-At r [] at)

  accepts :
      (packet wire : List ℕ)
      → All IsByte packet
      → packet ≡ le_bytes 2 schema.message_id ++ wire
      → schema.message_id < 2 ^ 16
      → Conforms (descriptions [] schema.fields) wire
      → (check_layout packet (build_packet_layout schema)).ok ≡ true
  unfolding check_keydrop_packet
  accepts packet wire bytes whole id conforms =
      (check_keydrop_packet_iff packet schema bytes id).1 (wire, whole, conforms)

  encode_packet-run :
      (vs : OrderedPayload) (d next : AdaptiveDictionary) (e e' : Encoder)
      → Encoder.write_u16 host
          (Encoder.reserve blank_encoder
            (estimate_encoded_packet_size (build_packet_layout schema) vs))
          schema.message_id
        ≡ ok e
      → encode_layout host (build_packet_layout schema).fields vs e d ≡ (ok e', next)
      → encode_packet host schema (build_packet_layout schema) vs d ≡ (ok (content e'), next)
  unfolding encode_packet encode_fields_behind seal Encoder.take_buffer Builder.take_buffer
  encode_packet-run vs d next e e' one more =
      let layout = build_packet_layout schema in
      ap (λ x. encode_fields_behind host schema layout x vs d) one
      ∙ ap (seal host schema layout) more

  pub decode_packet-run :
      {A : Type 0} (finish : OrderedPayload → PacketReader → Outcome A) (packet : List ℕ)
      (vs : OrderedPayload) (d next : AdaptiveDictionary) (r r' : PacketReader) (id : ℕ)
      → Reader.read_u16 host (Reader.create packet) ≡ (ok id, r)
      → decode_layout host (build_packet_layout schema).fields d r ≡ (ok vs, r', next)
      → decode_packet host schema (build_packet_layout schema) finish packet d
        ≡ (finish vs r', next)
  unfolding decode_packet
  decode_packet-run finish packet vs d next r r' id one more = ground (arith, one, more)

  pub pack :
      (vs : OrderedPayload) (d : AdaptiveDictionary)
      → schema.message_id < 2 ^ 16
      → length vs < 2 ^ 40
      → AllFit schema.fields vs
      → All Valid vs
      → All Short vs
      → Ready (all_ids vs) d
      → Packed vs d
  pack vs d id few fit valid short ready =
      let layout = build_packet_layout schema in
      let each = (build_packet_layout-Describes schema).each in
      let start = Encoder.reserve blank_encoder (estimate_encoded_packet_size layout vs) in
      let (e, one, front) = write_u16-Appends host start schema.message_id id in
      let c : Carried host order layout.fields vs vs e d =
        subst (λ ls. Carried host order ls vs vs e d) (sym each)
          (carry host order schema.fields [] [] vs e d refl fit valid short ready) in
      let header = le_bytes 2 schema.message_id in
      let whole : content c.after ≡ header ++ c.wire =
        c.appended
        ∙ ap (λ l. l ++ c.wire)
            (front ∙ starts_empty (estimate_encoded_packet_size layout vs) header) in
      let packet = content c.after in
      let bytes : All IsByte packet =
        subst (All IsByte) (sym whole)
          (All-append IsByte header c.wire (le_bytes-IsByte 2 schema.message_id) c.bytes) in
      let size : length packet ≡ 2 + length c.wire =
        ap length whole
        ∙ length-append header c.wire
        ∙ ap (λ n. n + length c.wire) (length-le_bytes 2 schema.message_id) in
      let small : length packet < 2 ^ 63 = omega (arith, size, c.small, few) in
      let rest : drop 2 packet ≡ c.wire =
        ap (drop 2) whole
        ∙ drop-append header c.wire 2 (sym (length-le_bytes 2 schema.message_id)) in
      let conforms : Conforms (descriptions [] schema.fields) (drop 2 packet) =
        subst (Conforms (descriptions [] schema.fields)) (sym rest)
          (subst (λ ls. Conforms ls c.wire) each c.conforms) in
      let begin : At (Reader.create packet) (header ++ c.wire) = at_start packet _ small whole in
      let (r, id_read, left, same) =
        read_u16-Reads c.wire _ host order schema.message_id id begin in
      let (r', fields_read, left') = c.reads [] r (subst (At r) (sym (append-nil c.wire)) left) in
      record {
        packet = packet;
        next = c.next;
        first = r;
        behind = r';
        written = encode_packet-run vs d c.next e c.after one c.written;
        bytes = bytes;
        enough = omega (arith, size);
        id_at = read_u16_le-le_bytes packet c.wire 0 schema.message_id id whole;
        small = small;
        conforms = conforms;
        accepted =
            accepts packet c.wire bytes whole id (subst (λ ls. Conforms ls c.wire) each c.conforms);
        at_end = ends r' left';
        id_read = id_read;
        fields_read = fields_read;
        ready = c.ready;
      }
