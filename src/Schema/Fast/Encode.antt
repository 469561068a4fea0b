-- ===== src/Schema/Fast/Encode.antt =====
-- What the fast codec writes.
use keydrop.Base.{
  ℕ, zero, suc, ◌+◌, ◌*◌, ◌/◌, ◌%◌, ◌^◌, ◌<◌, ◌≡◌, ◌≢◌, refl, sym, ap, ◌∙◌, arith, true, ◌↔◌, max,
  take,
}
use keydrop.Base.{
  List, [], ◌∷◌, ◌++◌, some, length, All, le_bytes, append_assoc, append-nil, take_all, Result, ok,
}
use keydrop.Base.Int.{to_word, to_word_8}
use mathlib.Core.Path.{subst, ap₂}
use native.Mathlib.Nat.{div-div-eq-div-mul}
use keydrop.Base.{shift_eight}
use keydrop.Core.Buffer
use keydrop.Core.Buffer.{Buffer, append_raw}
use keydrop.Schema.Types.{FieldDef, SchemaDef}
use keydrop.Schema.Layout.{codec_for_type}
use keydrop.Schema.Layout.Fields.{describe, descriptions, build_packet_layout-Describes}
use keydrop.Schema.Values.{FieldValue, type_of, OrderedPayload}
use keydrop.Schema.Values.Wire.{Valid, same_type_iff, value_wire, values_wire}
use keydrop.Schema.Mapper.RoundTrip.{Typed, Typed-length}
use keydrop.Schema.Registry.{fast_codec}
use keydrop.Schema.Fast.{
  FastCodecCode, write_u16_le, write_u32_le, write_u64_le, write_from, encode_sequence,
  encode_field, types_match, encode_fields, encode,
}
use keydrop.Schema.Fast.{as_natural, as_signed, as_sequence}

-- A call succeeds and puts the bytes behind those of `out`.
abbrev pub Puts : Buffer → List ℕ → Result Buffer → Type 0
Puts out bs r = (out' : Buffer) × (r ≡ ok out') × (out'.bytes_ ≡ out.bytes_ ++ bs)

write-bytes : (out : Buffer) (b : ℕ) → (Buffer.write out b).bytes_ ≡ out.bytes_ ++ (b ∷ [])
unfolding Buffer.write
write-bytes out b = refl

-- One byte, and then others.
write-then :
    (out : Buffer) (b : ℕ) (bs after : List ℕ)
    → after ≡ (Buffer.write out b).bytes_ ++ bs
    → after ≡ out.bytes_ ++ (b ∷ bs)
write-then out b bs after e =
    e ∙ ap (λ l. l ++ bs) (write-bytes out b) ∙ append_assoc out.bytes_ (b ∷ []) bs

pub write_u16_le-bytes :
    (out : Buffer) (v : ℕ) → (write_u16_le out v).bytes_ ≡ out.bytes_ ++ le_bytes 2 v
unfolding write_u16_le le_bytes
write_u16_le-bytes out v =
    write-then out (v % 256) _ _ (write-bytes (Buffer.write out (v % 256)) (v / 2 ^ 8 % 256))

write_u32_le-bytes :
    (out : Buffer) (v : ℕ) → (write_u32_le out v).bytes_ ≡ out.bytes_ ++ le_bytes 4 v
unfolding write_u32_le le_bytes
write_u32_le-bytes out v =
    let third : v / 2 ^ 16 % 256 ≡ v / 256 / 256 % 256 = omega arith in
    let fourth : v / 2 ^ 24 % 256 ≡ v / 256 / 256 / 256 % 256 = omega arith in
    let one = Buffer.write out (v % 256) in
    let two = Buffer.write one (v / 2 ^ 8 % 256) in
    let three = Buffer.write two (v / 2 ^ 16 % 256) in
    write-then out (v % 256) _ _ (
      write-then one (v / 2 ^ 8 % 256) _ _
        (write-then two (v / 2 ^ 16 % 256) _ _ (write-bytes three (v / 2 ^ 24 % 256))))
    ∙ ap (λ l. out.bytes_ ++ ((v % 256) ∷ (v / 256 % 256) ∷ l))
        (ap₂ (λ (x y : ℕ). x ∷ y ∷ []) third fourth)

write_from-bytes :
    (n i : ℕ) (out : Buffer) (v : ℕ)
    → (write_from i n out v).bytes_ ≡ out.bytes_ ++ le_bytes n (v / 2 ^ (8 * i))
unfolding write_from le_bytes
write_from-bytes zero i out v = sym (append-nil out.bytes_)
write_from-bytes (suc n) i out v =
    let next : v / 2 ^ (8 * (i + 1)) ≡ v / 2 ^ (8 * i) / 256 =
      ap (λ k. v / 2 ^ k) (omega arith)
      ∙ ap (λ k. v / k) (shift_eight (8 * i) ∙ omega arith)
      ∙ sym (div-div-eq-div-mul v (2 ^ (8 * i)) 256) in
    let byte = v / 2 ^ (8 * i) % 256 in
    write-then out byte _ _ (
      write_from-bytes n (i + 1) (Buffer.write out byte) v
      ∙ ap (λ k. (Buffer.write out byte).bytes_ ++ le_bytes n k) next)

write_u64_le-bytes :
    (out : Buffer) (v : ℕ) → (write_u64_le out v).bytes_ ≡ out.bytes_ ++ le_bytes 8 v
unfolding write_u64_le
write_u64_le-bytes out v =
    let whole : v / 2 ^ (8 * 0) ≡ v = omega arith in
    write_from-bytes 8 0 out v ∙ ap (λ k. out.bytes_ ++ le_bytes 8 k) whole

encode_sequence-Puts :
    (out : Buffer) (s : List ℕ)
    → length s < 2 ^ 16
    → Puts out (le_bytes 2 (length s) ++ s) (encode_sequence out s)
unfolding encode_sequence append_raw
encode_sequence-Puts out [] h = (
  write_u16_le out 0,
  refl,
  write_u16_le-bytes out 0 ∙ ap (λ l. out.bytes_ ++ l) (sym (append-nil _)),
)
encode_sequence-Puts out (x ∷ xs) h =
    let s = x ∷ xs in
    let fits : length s % 2 ^ 16 ≡ length s = omega arith in
    let sized = write_u16_le out (length s) in
    let after : Buffer = record {
      bytes_ = sized.bytes_ ++ take (length s) s;
      capacity_ = max sized.capacity_ (length (sized.bytes_ ++ take (length s) s));
    } in
    (
      after,
      ground (arith, fits),
      ap (λ l. sized.bytes_ ++ l) (take_all s)
          ∙ ap (λ l. l ++ s) (write_u16_le-bytes out (length s))
          ∙ append_assoc out.bytes_ (le_bytes 2 (length s)) s,
    )

-- The function of the codec of a value's type writes the wire bytes of the value.
encode_field-Puts :
    (out : Buffer) (v : FieldValue)
    → Valid v
    → Puts out (value_wire v) (encode_field (codec_for_type (type_of v)) out v)
unfolding encode_field value_wire codec_for_type type_of as_natural as_signed as_sequence le_bytes
encode_field-Puts out (FieldValue.u8 v) h =
    let fits : v % 256 ≡ v = omega arith in
    (Buffer.write out v, refl, write-bytes out v ∙ ap (λ b. out.bytes_ ++ (b ∷ [])) (sym fits))
encode_field-Puts out (FieldValue.u16 v) h = (write_u16_le out v, refl, write_u16_le-bytes out v)
encode_field-Puts out (FieldValue.u32 v) h = (write_u32_le out v, refl, write_u32_le-bytes out v)
encode_field-Puts out (FieldValue.i8 v) h =
    let w = to_word (2 ^ 8) v in
    let fits : w % 256 ≡ w = omega (arith, (to_word_8 v h).0) in
    (Buffer.write out w, refl, write-bytes out w ∙ ap (λ b. out.bytes_ ++ (b ∷ [])) (sym fits))
encode_field-Puts out (FieldValue.i16 v) h =
    (write_u16_le out _, refl, write_u16_le-bytes out (to_word (2 ^ 16) v))
encode_field-Puts out (FieldValue.i32 v) h =
    (write_u32_le out _, refl, write_u32_le-bytes out (to_word (2 ^ 32) v))
encode_field-Puts out (FieldValue.f32 v) h = (write_u32_le out v, refl, write_u32_le-bytes out v)
encode_field-Puts out (FieldValue.f64 v) h = (write_u64_le out v, refl, write_u64_le-bytes out v)
encode_field-Puts out (FieldValue.string s) (h, bytes) = encode_sequence-Puts out s h
encode_field-Puts out (FieldValue.bytes s) (h, bytes) = encode_sequence-Puts out s h

encode_fields-Puts :
    (fs before : List FieldDef) (vs : OrderedPayload) (out : Buffer)
    → Typed fs vs
    → All Valid vs
    → Puts out (values_wire vs) (encode_fields (descriptions before fs) vs out)
unfolding encode_fields values_wire descriptions describe
encode_fields-Puts [] before [] out t h = (out, refl, sym (append-nil out.bytes_))
encode_fields-Puts [] before (v ∷ vs) out t h = elim t [ ]
encode_fields-Puts (f ∷ fs) before [] out t h = elim t [ ]
encode_fields-Puts (f ∷ fs) before (v ∷ vs) out (t, ts) (hv, h) =
    let (out', one, front) =
      subst (λ x. Puts out (value_wire v) (encode_field (codec_for_type x) out v)) t
        (encode_field-Puts out v hv) in
    let (out'', more, back) = encode_fields-Puts fs (before ++ (f ∷ [])) vs out' ts h in
    (
      out'',
      ground (arith, one, more),
      back
          ∙ ap (λ l. l ++ values_wire vs) front
          ∙ append_assoc out.bytes_ (value_wire v) (values_wire vs),
    )

types_match-Typed :
    (fs : List FieldDef) (vs : OrderedPayload)
    → length vs ≡ length fs
    → (types_match fs vs ≡ true) ↔ Typed fs vs
unfolding types_match
types_match-Typed [] [] e = (λ h. tt, λ h. refl)
types_match-Typed [] (v ∷ vs) e = absurd (omega arith)
types_match-Typed (f ∷ fs) [] e = absurd (omega arith)
types_match-Typed (f ∷ fs) (v ∷ vs) e =
    let type = same_type_iff (type_of v) f.type in
    let rest = types_match-Typed fs vs (omega arith) in
    (
      λ h. (ground (arith, h, type), rest.0 (ground (arith, h))),
      λ (t, ts). ground (arith, t, type, rest.1 ts),
    )

-- The packet of valid values: the id, low byte first, and their wire bytes.
abbrev pub packet_of : SchemaDef → OrderedPayload → List ℕ
packet_of schema vs = le_bytes 2 schema.message_id ++ values_wire vs

module _ (schema : SchemaDef) (vs : OrderedPayload) (out : Buffer) where
  encode-mismatch :
      (encode (fast_codec schema) (some vs) out).0 ≢ FastCodecCode.ok
      → (encode (fast_codec schema) (some vs) out).1 ≡ ok out
  unfolding encode
  encode-mismatch bad = ground arith

  encode-cases :
      ((encode (fast_codec schema) (some vs) out).0 ≡ FastCodecCode.ok)
      ↔ ((length vs ≡ length schema.fields) × (types_match schema.fields vs ≡ true))
  unfolding encode fast_codec
  encode-cases = (λ h. ground arith, λ h. ground arith)

  encode-run :
      length vs ≡ length schema.fields
      → types_match schema.fields vs ≡ true
      → encode (fast_codec schema) (some vs) out ≡ (
        FastCodecCode.ok,
        encode_fields
            (fast_codec schema).layout.fields
            vs
            (write_u16_le (Buffer.clear out) schema.message_id),
      )
  unfolding encode fast_codec
  encode-run size same = ground (arith, size, same)

-- The fast codec accepts valid values exactly where there is one of the right type for each field.
-- Then it replaces what the buffer held by the packet of the values; else it leaves the buffer.
pub encode-packet_of :
    (schema : SchemaDef) (vs : OrderedPayload) (out : Buffer)
    → All Valid vs
    → (((encode (fast_codec schema) (some vs) out).0 ≡ FastCodecCode.ok) ↔ Typed schema.fields vs)
      × (Typed schema.fields vs
          → (after : Buffer) × (encode (fast_codec schema) (some vs) out
              ≡ (FastCodecCode.ok, ok after))
            × (after.bytes_ ≡ packet_of schema vs))
      × ((¬ Typed schema.fields vs) → (encode (fast_codec schema) (some vs) out).1 ≡ ok out)
unfolding Buffer.clear fast_codec
encode-packet_of schema vs out valid =
    let cases = encode-cases schema vs out in
    let accepted : ((encode (fast_codec schema) (some vs) out).0 ≡ FastCodecCode.ok)
        ↔ Typed schema.fields vs =
      (
        λ h. let (size, same) = cases.0 h in (types_match-Typed schema.fields vs size).0 same,
        λ t.
            let size = Typed-length schema.fields vs t in
            cases.1 (size, (types_match-Typed schema.fields vs size).1 t),
      ) in
    (
      accepted,
      λ t.
          let size = Typed-length schema.fields vs t in
          let start = write_u16_le (Buffer.clear out) schema.message_id in
          let (after, run, bytes) =
            subst (λ ls. Puts start (values_wire vs) (encode_fields ls vs start))
              (sym (build_packet_layout-Describes schema).each)
              (encode_fields-Puts schema.fields [] vs start t valid) in
          (
            after,
            encode-run schema vs out size ((types_match-Typed schema.fields vs size).1 t)
                ∙ ap (λ r. (FastCodecCode.ok, r)) run,
            bytes
                ∙ ap (λ l. l ++ values_wire vs)
                    (write_u16_le-bytes (Buffer.clear out) schema.message_id),
          ),
      λ no. encode-mismatch schema vs out (λ e. no (accepted.0 e)),
    )
