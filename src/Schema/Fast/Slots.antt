-- ===== src/Schema/Fast/Slots.antt =====
-- What `decode` puts into the slots of the fields.
use keydrop.Base.{ℕ, ◌+◌, ◌^◌, ◌≤◌, ◌<◌, ◌≡◌, ◌≢◌, refl, sym, ap, ◌∙◌, arith, true, false}
use keydrop.Base.{List, [], ◌∷◌, ◌++◌, some, length, All, le_bytes, append_assoc, ok, drop, take}
use keydrop.Base.Int.{to_word}
use mathlib.Core.Path.{subst}
use keydrop.Core.Endian.{Host, little}
use keydrop.Core.View.{BufferView}
use keydrop.Core.Buffer.{Buffer, append_view}
use keydrop.Core.Buffer.Slices.{sliced, slice-sliced, append_view-slice}
use keydrop.Core.Reader
use keydrop.Core.Reader.{M, PacketReader, ◌>>=◌, return}
use keydrop.Core.Packet.Read.{
  At, Reads, behind, behind-At, front-At, skip-behind, map-Reads, remaining-At,
}
use keydrop.Core.Packet.Read.{
  read_u8-Reads, read_u16-Reads, read_u32-Reads, read_u64-Reads, read_i8-Reads, read_i16-Reads,
  read_i32-Reads,
}
use keydrop.Schema.Types.{FieldType, FieldDef}
use keydrop.Schema.Layout.{codec_for_type}
use keydrop.Schema.Layout.Fields.{describe, descriptions}
use keydrop.Schema.Values.{FieldValue, type_of, OrderedPayload}
use keydrop.Schema.Values.Wire.{Valid, value_wire, values_wire}
use keydrop.Schema.Mapper.RoundTrip.{Typed}
use keydrop.Schema.Registry.{FastCodec}
use keydrop.Schema.Dictionary.{AdaptiveDictionary}
use keydrop.Schema.Fast.{FastCodecCode, FastDecodedField, position, slice_buffer}
use keydrop.Schema.Fast.{decode_sequence, decode_field, decode_fields, finish}

-- A view that shows the bytes: appending it to a buffer adds them.
abbrev pub Shows : BufferView → List ℕ → Type 0
Shows v s =
    (target : Buffer)
    → (after : Buffer) × (append_view target v ≡ ok after) × (after.bytes_ ≡ target.bytes_ ++ s)

-- The slot holds the value: an integer extended to 64 bits, a float, or a view of the packet.
abbrev pub Carries : (ℕ → ℕ) → FieldValue → FastDecodedField → Type 0
Carries widen (FieldValue.u8 v) f = (f.type ≡ FieldType.u8) × (f.as_integer ≡ v)
Carries widen (FieldValue.u16 v) f = (f.type ≡ FieldType.u16) × (f.as_integer ≡ v)
Carries widen (FieldValue.u32 v) f = (f.type ≡ FieldType.u32) × (f.as_integer ≡ v)
Carries widen (FieldValue.i8 v) f = (f.type ≡ FieldType.i8) × (f.as_integer ≡ to_word (2 ^ 64) v)
Carries widen (FieldValue.i16 v) f = (f.type ≡ FieldType.i16) × (f.as_integer ≡ to_word (2 ^ 64) v)
Carries widen (FieldValue.i32 v) f = (f.type ≡ FieldType.i32) × (f.as_integer ≡ to_word (2 ^ 64) v)
Carries widen (FieldValue.f32 v) f = (f.type ≡ FieldType.f32) × (f.as_float ≡ widen v)
Carries widen (FieldValue.f64 v) f = (f.type ≡ FieldType.f64) × (f.as_float ≡ v)
Carries widen (FieldValue.string s) f =
    (f.type ≡ FieldType.string) × (f.owned_string ≡ false) × Shows f.view s
Carries widen (FieldValue.bytes s) f =
    (f.type ≡ FieldType.bytes) × (f.owned_string ≡ false) × Shows f.view s

-- The slots carry the values, in order; there may be more slots.
abbrev pub AllCarry : (ℕ → ℕ) → List FieldValue → List FastDecodedField → Type 0
AllCarry widen [] fields = Unit {0}
AllCarry widen (v ∷ vs) [] = ⊥
AllCarry widen (v ∷ vs) (f ∷ fs) = Carries widen v f × AllCarry widen vs fs

-- A string is not as long as the mark of a dictionary reference.
abbrev pub Short : FieldValue → Type 0
Short (FieldValue.string s) = length s ≢ 0xFFFF
Short _ = Unit {0}

pub ok-eq : {A : Type 0} {x y : A} → ok x ≡ ok y → x ≡ y
ok-eq e = cc

pub sliced-Shows :
    (b : Buffer) (o : ℕ) (s : List ℕ)
    → o + length s ≤ length b.bytes_
    → take (length s) (drop o b.bytes_) ≡ s
    → Shows (sliced b o (length s)) s
sliced-Shows b o s inside same target =
    let (v, after, given, appended, bytes) = (append_view-slice b target o (length s)).0 inside in
    let e : v ≡ sliced b o (length s) = ok-eq (sym given ∙ slice-sliced b o (length s) inside) in
    (after, ap (append_view target) (sym e) ∙ appended, bytes ∙ ap (λ l. target.bytes_ ++ l) same)

module _ (host : Host) (order : host.order ≡ little) (widen : ℕ → ℕ) where
  -- The buffer that a reader of the model stands for.
  abbrev pub whole : PacketReader → Buffer
  whole r = record { bytes_ = r.buffer; capacity_ = length r.buffer }

  abbrev pub viewing : FieldType → FastDecodedField → BufferView → FastDecodedField
  viewing type f v = record f { type = type; view = v; owned_string = false }

  pub decode_sequence-run :
      (type : FieldType) (s rest : List ℕ) (f : FastDecodedField) (r : PacketReader)
      → At r (s ++ rest)
      → decode_sequence host widen type (length s) f r
        ≡ (ok (true, viewing type f (sliced (whole r) r.cursor (length s))), behind s r)
  unfolding decode_sequence position slice_buffer
  decode_sequence-run type s rest f r h =
      let skipped = skip-behind s rest r h in
      let inside : r.cursor + length s ≤ length r.buffer = (behind-At s rest r h).within in
      let slice = slice-sliced (whole r) r.cursor (length s) inside in
      ground (arith, skipped, slice)

  -- The size in front of a sequence.
  pub prefix-Reads :
      (s rest : List ℕ) (r : PacketReader)
      → length s < 2 ^ 16
      → At r ((le_bytes 2 (length s) ++ s) ++ rest)
      → Reads (Reader.read_u16 host) r (length s) (s ++ rest)
  prefix-Reads s rest r h at =
      read_u16-Reads (s ++ rest) r host order (length s) h
        (rw (append_assoc (le_bytes 2 (length s)) s rest) at at)

  pub view-Shows :
      (s rest : List ℕ) (r : PacketReader)
      → At r (s ++ rest)
      → Shows (sliced (whole r) r.cursor (length s)) s
  view-Shows s rest r at =
      sliced-Shows (whole r) r.cursor s (behind-At s rest r at).within (front-At s rest r at)

  -- The function of the codec of a value's type reads its wire bytes into the slot.
  abbrev pub Decodes :
      AdaptiveDictionary → FieldValue → FastDecodedField → PacketReader → List ℕ → Type 0
  Decodes d v f r rest =
      (f' : FastDecodedField) × Reads (decode_field host widen d (codec_for_type (type_of v)) f) r
        (true, f') rest
      × Carries widen v f'

  pub decode_field-Decodes :
      (d : AdaptiveDictionary) (v : FieldValue) (f : FastDecodedField) (rest : List ℕ)
      (r : PacketReader)
      → Valid v
      → Short v
      → At r (value_wire v ++ rest)
      → Decodes d v f r rest
  unfolding decode_field codec_for_type type_of value_wire
  decode_field-Decodes d (FieldValue.u8 v) f rest r h s at =
      (_, map-Reads Reader.read_u8 _ r v _ rest refl (read_u8-Reads rest r v h at), (refl, refl))
  decode_field-Decodes d (FieldValue.u16 v) f rest r h s at = (
    _,
    map-Reads (Reader.read_u16 host) _ r v _ rest refl (read_u16-Reads rest r host order v h at),
    (refl, refl),
  )
  decode_field-Decodes d (FieldValue.u32 v) f rest r h s at = (
    _,
    map-Reads (Reader.read_u32 host) _ r v _ rest refl (read_u32-Reads rest r host order v h at),
    (refl, refl),
  )
  decode_field-Decodes d (FieldValue.i8 v) f rest r h s at = (
    _,
    map-Reads Reader.read_i8 _ r v _ rest refl (read_i8-Reads host order v rest r h at),
    (refl, refl),
  )
  decode_field-Decodes d (FieldValue.i16 v) f rest r h s at = (
    _,
    map-Reads (Reader.read_i16 host) _ r v _ rest refl (read_i16-Reads host order v rest r h at),
    (refl, refl),
  )
  decode_field-Decodes d (FieldValue.i32 v) f rest r h s at = (
    _,
    map-Reads (Reader.read_i32 host) _ r v _ rest refl (read_i32-Reads host order v rest r h at),
    (refl, refl),
  )
  decode_field-Decodes d (FieldValue.f32 v) f rest r h s at =
      unfold Reader.read_f32 in
      (
        _,
        map-Reads (Reader.read_u32 host) _ r v _ rest refl
            (read_u32-Reads rest r host order v h at),
        (refl, refl),
      )
  decode_field-Decodes d (FieldValue.f64 v) f rest r h s at =
      unfold Reader.read_f64 in
      (
        _,
        map-Reads (Reader.read_u64 host) _ r v _ rest refl
            (read_u64-Reads rest r host order v h at),
        (refl, refl),
      )
  decode_field-Decodes d (FieldValue.string s) f rest r (h, bytes) short at =
      let (r', e, left, same) = prefix-Reads s rest r h at in
      let run = decode_sequence-run FieldType.string s rest f r' left in
      (
        viewing FieldType.string f (sliced (whole r') r'.cursor (length s)),
        (behind s r', ground (arith, e, run, short), behind-At s rest r' left, same),
        (refl, refl, view-Shows s rest r' left),
      )
  decode_field-Decodes d (FieldValue.bytes s) f rest r (h, bytes) short at =
      let (r', e, left, same) = prefix-Reads s rest r h at in
      let run = decode_sequence-run FieldType.bytes s rest f r' left in
      (
        viewing FieldType.bytes f (sliced (whole r') r'.cursor (length s)),
        (behind s r', ground (arith, e, run), behind-At s rest r' left, same),
        (refl, refl, view-Shows s rest r' left),
      )

  pub decode_fields-Reads :
      (d : AdaptiveDictionary) (fs before : List FieldDef) (vs : OrderedPayload)
      (slots : List FastDecodedField) (r : PacketReader)
      → Typed fs vs
      → All Valid vs
      → All Short vs
      → length fs ≤ length slots
      → At r (values_wire vs)
      → (fields : List FastDecodedField) × Reads
          (decode_fields host widen d (descriptions before fs) slots)
          r
          (some fields)
          []
        × AllCarry widen vs fields
  unfolding decode_fields descriptions values_wire describe
  decode_fields-Reads d [] before [] slots r t h s room at = (slots, (r, refl, at, refl), tt)
  decode_fields-Reads d [] before (v ∷ vs) slots r t h s room at = elim t [ ]
  decode_fields-Reads d (f ∷ fs) before [] slots r t h s room at = elim t [ ]
  decode_fields-Reads d (f ∷ fs) before (v ∷ vs) [] r t h s room at = absurd (omega arith)
  decode_fields-Reads d (f ∷ fs) before (v ∷ vs) (slot ∷ slots) r (t, ts) (hv, h) (sv, s) room at =
      let (field, (r', e, left, same), carried) =
        subst
          (λ x.
            (f' : FastDecodedField) × Reads (decode_field host widen d (codec_for_type x) slot) r
              (true, f') (values_wire vs)
            × Carries widen v f')
          t (decode_field-Decodes d v slot (values_wire vs) r hv sv at) in
      let (fields, (r'', e', left', same'), rest) =
        decode_fields-Reads d fs (before ++ (f ∷ [])) vs slots r' ts h s (omega arith) left in
      (field ∷ fields, (r'', ground (arith, e, e'), left', same' ∙ same), (carried, rest))

  pub finish-empty :
      (codec : FastCodec) (fields : List FastDecodedField) (r : PacketReader)
      → At r []
      → finish codec (ok (some fields), r) ≡ record {
        code = FastCodecCode.ok;
        out_count = length codec.schema.fields;
        fields = some fields;
      }
  unfolding finish Reader.empty
  finish-empty codec fields r left = ground (arith, remaining-At r [] left)
