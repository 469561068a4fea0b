-- ===== src/Schema/Runtime/Codec/Layouts.antt =====
-- The values of a packet written and read with the same dictionary.
use keydrop.Base.{
  ℕ, zero, suc, ◌+◌, ◌*◌, ◌^◌, ◌≤◌, ◌≡◌, refl, sym, ap, ◌∙◌, arith, List, [], ◌∷◌, ◌++◌, some,
  length, All, IsByte, get_elem?, append_assoc, append-nil, All-append, ok, length-append,
}
use mathlib.Core.Path.{subst}
use keydrop.Core.Endian.{Host, little}
use keydrop.Core.Encoder.{Encoder}
use keydrop.Core.Reader.{PacketReader}
use keydrop.Core.Packet.Write.{content}
use keydrop.Core.Packet.Read.{At}
use keydrop.Schema.Types.{FieldDef}
use keydrop.Schema.Layout.{FieldLayout, codec_for_type}
use keydrop.Schema.Layout.Fields.{describe, descriptions}
use keydrop.Schema.Values.{FieldValue, OrderedPayload, type_of}
use keydrop.Schema.Values.Wire.{Valid}
use keydrop.Schema.Validator.Accepts.{AllFit, Fitting}
use keydrop.Schema.Fast.Slots.{Short}
use keydrop.Reliability.Keydrop.Conforms.{Conforms}
use keydrop.Schema.Dictionary.{AdaptiveDictionary}
use keydrop.Schema.Runtime.Codec.{
  value_at, encode_value, encode_layout, decode_value, decode_layout,
}
use keydrop.Schema.Runtime.Codec.Lockstep.{Ready}
use keydrop.Schema.Runtime.Codec.Exchange.{ids_of, Exchanged, exchange}

-- As many ids as the strings may take.
abbrev pub all_ids : OrderedPayload → ℕ
all_ids [] = 0
all_ids (v ∷ vs) = ids_of v + all_ids vs

get_elem?-append :
    (front back : OrderedPayload) (v : FieldValue) (n : ℕ)
    → length front ≡ n
    → get_elem? (front ++ (v ∷ back)) n ≡ some v
get_elem?-append [] back v zero e = refl
get_elem?-append [] back v (suc n) e = absurd (omega arith)
get_elem?-append (x ∷ front) back v zero e = absurd (omega arith)
get_elem?-append (x ∷ front) back v (suc n) e = get_elem?-append front back v n (omega arith)

module _ (host : Host) (order : host.order ≡ little) where
  pub record Carried (ls : List FieldLayout) (all vs : OrderedPayload) (e : Encoder)
      (d : AdaptiveDictionary) : Type 0 where
    pub wire : List ℕ
    pub next : AdaptiveDictionary
    pub after : Encoder
    pub written : encode_layout host ls all e d ≡ (ok after, next)
    pub appended : content after ≡ content e ++ wire
    pub bytes : All IsByte wire
    pub small : length wire ≤ 2 ^ 17 * length vs
    pub conforms : Conforms ls wire
    pub reads :
        (rest : List ℕ) (r : PacketReader)
        → At r (wire ++ rest)
        → (r' : PacketReader) × (decode_layout host ls d r ≡ (ok vs, r', next)) × At r' rest
    pub ready : Ready 0 next

  encode_layout-step :
      (f : FieldLayout) (ls : List FieldLayout) (all : OrderedPayload) (v : FieldValue)
      (e e' : Encoder) (d d' : AdaptiveDictionary)
      → get_elem? all f.schema_index ≡ some v
      → encode_value host f.codec e v d ≡ (ok e', d')
      → encode_layout host (f ∷ ls) all e d ≡ encode_layout host ls all e' d'
  unfolding encode_layout value_at
  encode_layout-step f ls all v e e' d d' there one = ground (arith, there, one)

  decode_layout-step :
      (f : FieldLayout) (ls : List FieldLayout) (v : FieldValue) (vs : OrderedPayload)
      (r r' r'' : PacketReader) (d d' d'' : AdaptiveDictionary)
      → decode_value host f.codec d r ≡ (ok (v, d'), r')
      → decode_layout host ls d' r' ≡ (ok vs, r'', d'')
      → decode_layout host (f ∷ ls) d r ≡ (ok (v ∷ vs), r'', d'')
  unfolding decode_layout
  decode_layout-step f ls v vs r r' r'' d d' d'' one more = ground (arith, one, more)

  -- The first field exchanged, and then the others.
  carry_field :
      (f : FieldDef) (before : List FieldDef) (ls : List FieldLayout) (all : OrderedPayload)
      (v : FieldValue) (vs : OrderedPayload) (n : ℕ) (e : Encoder) (d : AdaptiveDictionary)
      (x : Exchanged host order n v e d)
      → get_elem? all (length before) ≡ some v
      → Fitting f v
      → Carried ls all vs x.after x.next
      → Carried (describe before f ∷ ls) all (v ∷ vs) e d
  unfolding describe
  carry_field f before ls all v vs n e d x there fits c =
      let codec : codec_for_type (type_of v) ≡ codec_for_type f.type = ap codec_for_type fits.0 in
      record {
        wire = x.wire ++ c.wire;
        next = c.next;
        after = c.after;
        written =
            encode_layout-step (describe before f) ls all v e x.after d x.next there
              (subst (λ k. encode_value host k e v d ≡ (ok x.after, x.next)) codec x.written)
            ∙ c.written;
        appended =
            c.appended ∙ ap (λ l. l ++ c.wire) x.appended ∙ append_assoc (content e) x.wire c.wire;
        bytes = All-append IsByte x.wire c.wire x.bytes c.bytes;
        small = omega (arith, x.small, c.small, length-append x.wire c.wire);
        conforms = (x.wire, c.wire, refl, x.shaped f before fits, c.conforms);
        reads = λ rest r at.
            let (r', one, left, same) =
              x.reads (c.wire ++ rest) r (subst (At r) (append_assoc x.wire c.wire rest) at) in
            let (r'', more, left') = c.reads rest r' left in
            (
              r'',
              decode_layout-step (describe before f) ls v vs r r' r'' d x.next c.next
                  (subst (λ k. decode_value host k d r ≡ (ok (v, x.next), r')) codec one) more,
              left',
            );
        ready = c.ready;
      }

  pub carry :
      (fs before : List FieldDef) (front vs : OrderedPayload) (e : Encoder) (d : AdaptiveDictionary)
      → length front ≡ length before
      → AllFit fs vs
      → All Valid vs
      → All Short vs
      → Ready (all_ids vs) d
      → Carried (descriptions before fs) (front ++ vs) vs e d
  unfolding descriptions encode_layout decode_layout
  carry [] before front [] e d size fit valid short ready = record {
    wire = [];
    next = d;
    after = e;
    written = refl;
    appended = sym (append-nil (content e));
    bytes = tt;
    small = omega arith;
    conforms = refl;
    reads = λ rest r at. (r, refl, at);
    ready = ready;
  }
  carry [] before front (v ∷ vs) e d size fit valid short ready = elim fit [ ]
  carry (f ∷ fs) before front [] e d size fit valid short ready = elim fit [ ]
  carry (f ∷ fs) before front (v ∷ vs) e d size (one, fit) (hv, valid) (sv, short) ready =
      let x = exchange host order (all_ids vs) v e d hv sv ready in
      let sizes : length (front ++ (v ∷ [])) ≡ length (before ++ (f ∷ [])) =
        omega (arith, length-append front (v ∷ []), length-append before (f ∷ []), size) in
      let rest =
        carry fs (before ++ (f ∷ [])) (front ++ (v ∷ [])) vs x.after x.next sizes fit valid short
          x.ready in
      carry_field f before (descriptions (before ++ (f ∷ [])) fs) (front ++ (v ∷ vs)) v vs
        (all_ids vs) e d x (get_elem?-append front vs v (length before) size) one
        (subst (λ all. Carried (descriptions (before ++ (f ∷ [])) fs) all vs x.after x.next)
          (append_assoc front (v ∷ []) vs) rest)
