-- ===== src/Reliability/Keydrop/Values.antt =====
-- The packets of values, as the encoders write them, are packets to the corruption detector.
use keydrop.Base.{
  ℕ, ◌^◌, ◌<◌, ◌≡◌, refl, sym, ap, ◌∙◌, ◌⊎◌, inl, inr, arith, true, false, ◌&&◌, ◌==◌, Bool-cases,
}
use keydrop.Base.{
  List, [], ◌∷◌, ◌++◌, length, All, IsByte, le_bytes, le_bytes-IsByte, length-le_bytes, All-append,
}
use keydrop.Base.{◌≤◌}
use keydrop.Base.Int.{to_word}
use keydrop.Schema.Types
use keydrop.Schema.Types.{FieldType, FieldDef, SchemaDef, is_string, is_variable_length}
use keydrop.Schema.Layout.Fields.{describe, descriptions, fixed_bytes}
use keydrop.Schema.Values.{FieldValue, type_of, OrderedPayload}
use keydrop.Schema.Values.Wire.{Valid, value_wire, values_wire}
use keydrop.Schema.Validator.{SchemaValidationCode, validate_payload_values}
use keydrop.Schema.Validator.Accepts.{AllFit, Fitting, Limited, validate_payload_values_iff}
use keydrop.Schema.Fast.Encode.{packet_of}
use keydrop.Schema.Fast.Slots.{Short}
use keydrop.Reliability.Keydrop.{check_keydrop_packet}
use keydrop.Reliability.Keydrop.Conforms.{Conforms, FieldBytes, fixed, literal}
use keydrop.Reliability.Keydrop.Packets.{check_keydrop_packet_iff}

-- A value of a sequence is written with its length.
Sequence : FieldValue → List ℕ → Type 0
Sequence v s =
    (is_variable_length (type_of v) ≡ true)
    × (value_wire v ≡ le_bytes 2 (length s) ++ s)
    × (length s < 2 ^ 16)
    × ((f : FieldDef)
        → Limited f v
        → f.constraints.has_max_length ≡ true
        → length s ≤ f.constraints.max_length)
    × ((is_string (type_of v) && length s == 0xFFFF) ≡ false)

shape :
    (v : FieldValue)
    → Valid v
    → Short v
    → ((is_variable_length (type_of v) ≡ false) × (length (value_wire v) ≡ fixed_bytes (type_of v)))
      ⊎ ((s : List ℕ) × Sequence v s)
unfolding Sequence is_variable_length value_wire type_of fixed_bytes is_string
    Types.try_field_type_fixed_size
shape (FieldValue.u8 v) h s = inl (refl, length-le_bytes 1 v)
shape (FieldValue.u16 v) h s = inl (refl, length-le_bytes 2 v)
shape (FieldValue.u32 v) h s = inl (refl, length-le_bytes 4 v)
shape (FieldValue.i8 v) h s = inl (refl, length-le_bytes 1 (to_word (2 ^ 8) v))
shape (FieldValue.i16 v) h s = inl (refl, length-le_bytes 2 (to_word (2 ^ 16) v))
shape (FieldValue.i32 v) h s = inl (refl, length-le_bytes 4 (to_word (2 ^ 32) v))
shape (FieldValue.f32 v) h s = inl (refl, length-le_bytes 4 v)
shape (FieldValue.f64 v) h s = inl (refl, length-le_bytes 8 v)
shape (FieldValue.string t) (h, bytes) s = inr (t, (refl, refl, h, (λ f fits. fits), ground arith))
shape (FieldValue.bytes t) (h, bytes) s = inr (t, (refl, refl, h, (λ f fits. fits), refl))

pub value-FieldBytes :
    (f : FieldDef) (before : List FieldDef) (v : FieldValue)
    → Fitting f v
    → Valid v
    → Short v
    → FieldBytes (describe before f) (value_wire v)
unfolding describe Sequence
value-FieldBytes f before v (t, limit) h s = elim (shape v h s) [
  | inl (plain, size) ↦ fixed (ap is_variable_length (sym t) ∙ plain) (size ∙ ap fixed_bytes t)
  | inr (c, (variable, wire, small, len, mark)) ↦
      literal c (ap is_variable_length (sym t) ∙ variable) small
        (ap (λ x. is_string x && length c == 0xFFFF) (sym t) ∙ mark)
        (elim (Bool-cases f.constraints.has_max_length) [
          | inl has ↦ ground (arith, len f limit has)
          | inr free ↦ ground (arith, free)
        ])
        wire
]

values-Conforms :
    (fs before : List FieldDef) (vs : OrderedPayload)
    → AllFit fs vs
    → All Valid vs
    → All Short vs
    → Conforms (descriptions before fs) (values_wire vs)
unfolding descriptions values_wire
values-Conforms [] before [] f h s = refl
values-Conforms [] before (v ∷ vs) f h s = elim f [ ]
values-Conforms (f ∷ fs) before [] t h s = elim t [ ]
values-Conforms (f ∷ fs) before (v ∷ vs) (t, ts) (hv, h) (sv, s) = (
  value_wire v,
  values_wire vs,
  refl,
  value-FieldBytes f before v t hv sv,
  values-Conforms fs (before ++ (f ∷ [])) vs ts h s,
)

pub value-IsByte : (v : FieldValue) → Valid v → All IsByte (value_wire v)
unfolding value_wire
value-IsByte (FieldValue.u8 v) h = le_bytes-IsByte 1 v
value-IsByte (FieldValue.u16 v) h = le_bytes-IsByte 2 v
value-IsByte (FieldValue.u32 v) h = le_bytes-IsByte 4 v
value-IsByte (FieldValue.i8 v) h = le_bytes-IsByte 1 _
value-IsByte (FieldValue.i16 v) h = le_bytes-IsByte 2 _
value-IsByte (FieldValue.i32 v) h = le_bytes-IsByte 4 _
value-IsByte (FieldValue.f32 v) h = le_bytes-IsByte 4 v
value-IsByte (FieldValue.f64 v) h = le_bytes-IsByte 8 v
value-IsByte (FieldValue.string s) (h, bytes) =
    All-append IsByte (le_bytes 2 (length s)) s (le_bytes-IsByte 2 (length s)) bytes
value-IsByte (FieldValue.bytes s) (h, bytes) =
    All-append IsByte (le_bytes 2 (length s)) s (le_bytes-IsByte 2 (length s)) bytes

values-IsByte : (vs : OrderedPayload) → All Valid vs → All IsByte (values_wire vs)
unfolding values_wire
values-IsByte [] h = tt
values-IsByte (v ∷ vs) (hv, h) =
    All-append IsByte (value_wire v) (values_wire vs) (value-IsByte v hv) (values-IsByte vs h)

-- With an id of 16 bits, the packet of valid values that the validator accepts is accepted by the
-- corruption detector, where no string is 65535 bytes long, whose size is the mark of a dictionary
-- reference.
pub check_keydrop_packet-validate_payload_values :
    (schema : SchemaDef) (vs : OrderedPayload)
    → validate_payload_values schema vs ≡ SchemaValidationCode.ok
    → All Valid vs
    → All Short vs
    → schema.message_id < 2 ^ 16
    → (check_keydrop_packet (packet_of schema vs) schema).ok ≡ true
check_keydrop_packet-validate_payload_values schema vs validated h s id =
    let fit = (validate_payload_values_iff schema vs).0 validated in
    let bytes =
      All-append IsByte (le_bytes 2 schema.message_id) (values_wire vs)
        (le_bytes-IsByte 2 schema.message_id) (values-IsByte vs h) in
    (check_keydrop_packet_iff (packet_of schema vs) schema bytes id).1
      (values_wire vs, refl, values-Conforms schema.fields [] vs fit h s)
