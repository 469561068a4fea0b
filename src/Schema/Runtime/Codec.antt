-- ===== src/Schema/Runtime/Codec.antt =====
-- How src/schema/schema_runtime.cpp writes and reads the values of a packet, with the strings that
-- the dictionary knows as references. The tables of functions have a function for each codec.
pub mod Lockstep
pub mod Exchange
pub mod Layouts
use keydrop.Base.{ℕ, ◌+◌, ◌%◌, ◌^◌, ◌==◌, not, Bool, true, false, ◌&&◌, List, [], ◌∷◌, some, length}
use keydrop.Base.{if◌then◌else◌, get_elem?, none, Result, ok, out_of_range, Text}
use keydrop.Core.Endian.{Host}
use keydrop.Core.Encoder
use keydrop.Core.Encoder.{Encoder}
use keydrop.Core.Reader
use keydrop.Core.Reader.{M, PacketReader, ◌>>=◌, return}
use keydrop.Schema.Types.{FieldType}
use keydrop.Schema.Layout.{
  FieldCodec, FieldLayout, PacketLayout, u8_value, u16_value, u32_value, i8_value, i16_value,
  i32_value, f32_value, f64_value, string_value, bytes_value,
}
use keydrop.Schema.Values
use keydrop.Schema.Values.{FieldValue, OrderedPayload, write_value}
use keydrop.Schema.Mapper.{blank}
use keydrop.Schema.Fast.{as_natural, as_signed, as_sequence}
use keydrop.Schema.Dictionary
use keydrop.Schema.Dictionary.{
  AdaptiveDictionary, AdaptiveDictionaryCode, lookup_id, lookup_value, create_or_get,
}
use keydrop.Schema.Optimizer.{dictionary_string_reference_marker}

-- The test in front of each use of the dictionary for values.
abbrev pub keeps_strings : AdaptiveDictionary → Bool
keeps_strings d = d.config.enabled && d.config.enable_string_values

-- `ordered_payload[index]`; the index is in range, since the payload was validated.
unfoldable pub value_at : OrderedPayload → ℕ → FieldValue
value_at values index = elim (get_elem? values index) [ none ↦ blank | some v ↦ v ]

-- A codec that does not use the dictionary.
abbrev pub plainly :
    {A : Type 0} → AdaptiveDictionary → M A → (A → FieldValue) → M (FieldValue × AdaptiveDictionary)
plainly d m f = m >>= λ v. return (f v, d)

module _ (host : Host) where
  -- The mark, and the id.
  unfoldable pub write_reference : Encoder → ℕ → Result Encoder
  write_reference e id = elim (Encoder.write_u16 host e dictionary_string_reference_marker) [
    | ok marked ↦ Encoder.write_u16 host marked id
    | out_of_range ↦ out_of_range
  ]

  unfoldable pub encode_string :
      Encoder → Text → AdaptiveDictionary → Result Encoder × AdaptiveDictionary
  unfolding write_reference
  encode_string e s d =
      let entered = (create_or_get d s).1 in
      if keeps_strings d
      then elim (lookup_id d s).code [
        | AdaptiveDictionaryCode.ok ↦ (write_reference e (lookup_id d s).id, d)
        | _ ↦ (Encoder.write_string host e s, entered)
      ]
      else (Encoder.write_string host e s, d)

  -- The switch over the codec of a field. A slot of the value that is not set is 0 or empty.
  unfoldable pub encode_value :
      FieldCodec → Encoder → FieldValue → AdaptiveDictionary → Result Encoder × AdaptiveDictionary
  unfolding encode_string
  encode_value u8_value e v d = (Encoder.write_u8 host e (as_natural v), d)
  encode_value u16_value e v d = (Encoder.write_u16 host e (as_natural v), d)
  encode_value u32_value e v d = (Encoder.write_u32 host e (as_natural v), d)
  encode_value i8_value e v d = (Encoder.write_i8 host e (as_signed v), d)
  encode_value i16_value e v d = (Encoder.write_i16 host e (as_signed v), d)
  encode_value i32_value e v d = (Encoder.write_i32 host e (as_signed v), d)
  encode_value f32_value e v d = (Encoder.write_f32 host e (as_natural v), d)
  encode_value f64_value e v d = (Encoder.write_f64 host e (as_natural v), d)
  encode_value string_value e v d = encode_string e (as_sequence v) d
  encode_value bytes_value e v d = (write_value host e (FieldValue.bytes (as_sequence v)), d)

  -- The loop over the fields of the layout.
  unfoldable pub encode_layout :
      List FieldLayout
      → OrderedPayload
      → Encoder
      → AdaptiveDictionary
      → Result Encoder × AdaptiveDictionary
  unfolding value_at
  encode_layout [] values e d = (ok e, d)
  encode_layout (field ∷ fields) values e d =
      let (written, d') = encode_value field.codec e (value_at values field.schema_index) d in
      elim written [ ok e' ↦ encode_layout fields values e' d' | out_of_range ↦ (out_of_range, d') ]

  -- What follows the mark of a reference.
  unfoldable pub decode_reference_value : AdaptiveDictionary → M FieldValue
  decode_reference_value d = Reader.read_u16 host >>= λ id r. elim (lookup_value d id).code [
    | AdaptiveDictionaryCode.ok ↦ (ok (FieldValue.string (lookup_value d id).value), r)
    | _ ↦ (out_of_range, r)
  ]

  -- What follows a size.
  unfoldable pub decode_literal : AdaptiveDictionary → ℕ → M (FieldValue × AdaptiveDictionary)
  decode_literal d size = do
    decoded ← Reader.read_string_from_size size
    return (FieldValue.string decoded, if keeps_strings d then (create_or_get d decoded).1 else d)

  unfoldable pub decode_sized : AdaptiveDictionary → ℕ → M (FieldValue × AdaptiveDictionary)
  unfolding decode_reference_value decode_literal
  decode_sized d marker_or_size =
      if marker_or_size == dictionary_string_reference_marker
      then plainly d (decode_reference_value d) (λ v. v)
      else decode_literal d marker_or_size

  -- The value, and the dictionary behind it.
  unfoldable pub decode_string : AdaptiveDictionary → M (FieldValue × AdaptiveDictionary)
  unfolding decode_sized
  decode_string d = Reader.read_u16 host >>= decode_sized d

  -- The bytes of the value.
  unfoldable pub decode_bytes : M (List ℕ)
  decode_bytes = do size ← Reader.read_u16 host; Reader.read_bytes size

  -- The switch over the codec of a field. A field that throws leaves the dictionary.
  unfoldable pub decode_value :
      FieldCodec → AdaptiveDictionary → M (FieldValue × AdaptiveDictionary)
  unfolding decode_string decode_bytes
  decode_value u8_value d = plainly d Reader.read_u8 FieldValue.u8
  decode_value u16_value d = plainly d (Reader.read_u16 host) FieldValue.u16
  decode_value u32_value d = plainly d (Reader.read_u32 host) FieldValue.u32
  decode_value i8_value d = plainly d Reader.read_i8 FieldValue.i8
  decode_value i16_value d = plainly d (Reader.read_i16 host) FieldValue.i16
  decode_value i32_value d = plainly d (Reader.read_i32 host) FieldValue.i32
  decode_value f32_value d = plainly d (Reader.read_f32 host) FieldValue.f32
  decode_value f64_value d = plainly d (Reader.read_f64 host) FieldValue.f64
  decode_value string_value d = decode_string d
  decode_value bytes_value d = plainly d decode_bytes FieldValue.bytes

  -- The loop over the fields of the layout: the values, or the exception, with the reader and the
  -- dictionary as they are then.
  unfoldable pub decode_layout :
      List FieldLayout
      → AdaptiveDictionary
      → PacketReader
      → Result OrderedPayload × PacketReader × AdaptiveDictionary
  decode_layout [] d r = (ok [], r, d)
  decode_layout (field ∷ fields) d r =
      let (value, r') = decode_value field.codec d r in
      elim value [
        | out_of_range ↦ (out_of_range, r', d)
        | ok (v, d') ↦
            let (rest, r'', d'') = decode_layout fields d' r' in
            elim rest [ out_of_range ↦ (out_of_range, r'', d'') | ok vs ↦ (ok (v ∷ vs), r'', d'') ]
      ]

-- The size that is reserved in front of the loop.
unfoldable pub estimate_fields : List FieldLayout → OrderedPayload → ℕ
unfolding value_at
estimate_fields [] values = 0
estimate_fields (field ∷ fields) values =
    let value = value_at values field.schema_index in
    (if not field.variable_length then field.fixed_size else 2 + length (as_sequence value))
    + estimate_fields fields values

unfoldable pub estimate_encoded_packet_size : PacketLayout → OrderedPayload → ℕ
unfolding estimate_fields
estimate_encoded_packet_size layout values = 2 + estimate_fields layout.fields values
