-- ===== src/Schema/Fast.antt =====
-- src/schema/fast_codec.cpp: the codec of one schema that takes and gives values without names. The
-- texts of the messages are left out. A vector of bytes holds fewer than 2 ^ 63 of them.
pub mod Slots
pub mod Encode
pub mod Decode
use keydrop.Base.{
  ℕ, zero, suc, ◌+◌, ◌*◌, ◌/◌, ◌%◌, ◌^◌, Bool, true, false, not, ltb, leb, ◌==◌, ◌&&◌, ◌||◌,
}
use keydrop.Base.{List, [], ◌∷◌, Option, none, some, length, drop, get_or, if◌then◌else◌, Text}
use keydrop.Base.{Result, out_of_range, is_bit_set, read_u16_le}
use keydrop.Base.Int.{ℤ, pos, to_word}
use keydrop.Core.Endian.{Host}
use keydrop.Core.View.{BufferView}
use keydrop.Core.Buffer
use keydrop.Core.Buffer.{Buffer, append_raw}
use keydrop.Core.Reader
use keydrop.Core.Reader.{M, PacketReader, ◌>>=◌, return}
use keydrop.Schema.Types.{FieldType, FieldDef, SchemaDef}
use keydrop.Schema.Layout.{
  FieldCodec, FieldLayout, PacketLayout, u8_value, u16_value, u32_value, i8_value, i16_value,
  i32_value, f32_value, f64_value, string_value, bytes_value,
}
use keydrop.Schema.Values
use keydrop.Schema.Values.{FieldValue, OrderedPayload, type_of, same_type}
use keydrop.Schema.Dictionary
use keydrop.Schema.Dictionary.{AdaptiveDictionary, AdaptiveDictionaryCode, lookup_value}
use keydrop.Schema.Optimizer.{optimized_marker, dictionary_string_reference_marker}
use keydrop.Schema.Registry.{FastCodec}

pub data FastCodecCode : Type 0 where
  ok field_count_mismatch field_type_mismatch packet_too_small message_id_mismatch : FastCodecCode
  unsupported_envelope decode_truncated dictionary_reference_miss insufficient_storage :
      FastCodecCode

pub record FastDecodedField : Type 0 where
  pub type : FieldType
  pub as_integer : ℕ
  pub as_float : ℕ
  pub view : BufferView
  pub owned : Text
  pub owned_string : Bool

abbrev pub batch_marker : ℕ
batch_marker = 0xFC

unfoldable pub write_u16_le : Buffer → ℕ → Buffer
write_u16_le out value = Buffer.write (Buffer.write out (value % 256)) (value / 2 ^ 8 % 256)

unfoldable pub write_u32_le : Buffer → ℕ → Buffer
write_u32_le out value =
    Buffer.write
      (Buffer.write (Buffer.write (Buffer.write out (value % 256)) (value / 2 ^ 8 % 256))
        (value / 2 ^ 16 % 256))
      (value / 2 ^ 24 % 256)

-- The loop of `write_u64_le` from byte `i` on, with `n` rounds left.
unfoldable pub write_from : ℕ → ℕ → Buffer → ℕ → Buffer
write_from i zero out value = out
write_from i (suc n) out value =
    write_from (i + 1) n (Buffer.write out (value / 2 ^ (8 * i) % 256)) value

unfoldable pub write_u64_le : Buffer → ℕ → Buffer
unfolding write_from
write_u64_le out value = write_from 0 8 out value

-- The slots of a value; one that is not set is 0 or empty.
unfoldable pub as_natural : FieldValue → ℕ
as_natural (FieldValue.u8 v) = v
as_natural (FieldValue.u16 v) = v
as_natural (FieldValue.u32 v) = v
as_natural (FieldValue.f32 v) = v
as_natural (FieldValue.f64 v) = v
as_natural _ = 0

unfoldable pub as_signed : FieldValue → ℤ
as_signed (FieldValue.i8 v) = v
as_signed (FieldValue.i16 v) = v
as_signed (FieldValue.i32 v) = v
as_signed _ = pos 0

unfoldable pub as_sequence : FieldValue → List ℕ
as_sequence (FieldValue.string s) = s
as_sequence (FieldValue.bytes s) = s
as_sequence _ = []

-- `encode_string` and `encode_bytes`.
unfoldable pub encode_sequence : Buffer → List ℕ → Result Buffer
encode_sequence out s =
    let sized = write_u16_le out (length s % 2 ^ 16) in
    if length s == 0 then Result.ok sized else append_raw sized (some s) (length s)

-- The table of functions, by the codec, each applied to a value of the codec's type.
unfoldable pub encode_field : FieldCodec → Buffer → FieldValue → Result Buffer
encode_field u8_value out v = Result.ok (Buffer.write out (as_natural v))
encode_field u16_value out v = Result.ok (write_u16_le out (as_natural v))
encode_field u32_value out v = Result.ok (write_u32_le out (as_natural v))
encode_field i8_value out v = Result.ok (Buffer.write out (to_word (2 ^ 8) (as_signed v)))
encode_field i16_value out v = Result.ok (write_u16_le out (to_word (2 ^ 16) (as_signed v)))
encode_field i32_value out v = Result.ok (write_u32_le out (to_word (2 ^ 32) (as_signed v)))
encode_field f32_value out v = Result.ok (write_u32_le out (as_natural v))
encode_field f64_value out v = Result.ok (write_u64_le out (as_natural v))
encode_field string_value out v = encode_sequence out (as_sequence v)
encode_field bytes_value out v = encode_sequence out (as_sequence v)

-- The loop over the values and the types of the schema, of one length.
unfoldable pub types_match : List FieldDef → OrderedPayload → Bool
types_match (field ∷ fields) (value ∷ values) =
    let rest = types_match fields values in
    if not (same_type (type_of value) field.type) then false else rest
types_match _ _ = true

unfoldable pub encode_fields : List FieldLayout → OrderedPayload → Buffer → Result Buffer
encode_fields (layout ∷ layouts) (value ∷ values) out = elim (encode_field layout.codec out value) [
  | Result.ok out' ↦ encode_fields layouts values out'
  | out_of_range ↦ out_of_range
]
encode_fields _ _ out = Result.ok out

-- `none` is nullptr; an array has `count` values. The code, and what `out` holds.
unfoldable pub encode : FastCodec → Option OrderedPayload → Buffer → FastCodecCode × Result Buffer
encode codec none out = (field_count_mismatch, Result.ok out)
encode codec (some values) out =
    if not (length values == length codec.schema.fields)
    then (field_count_mismatch, Result.ok out)
    else if not (types_match codec.schema.fields values)
    then (field_type_mismatch, Result.ok out)
    else (
      FastCodecCode.ok,
      encode_fields codec.layout.fields values
          (write_u16_le (Buffer.clear out) codec.schema.message_id),
    )

-- `position()`, and a slice of the buffer of the reader.
unfoldable pub position : M ℕ
position r = (Result.ok r.cursor, r)

unfoldable pub slice_buffer : ℕ → ℕ → M BufferView
slice_buffer start size r =
    (Buffer.slice (record { bytes_ = r.buffer; capacity_ = length r.buffer }) start size, r)

-- The conversion of an `f32` to an `f64`, on bit patterns, is the machine's.
module _ (host : Host) (widen : ℕ → ℕ) where
  unfoldable pub decode_sequence : FieldType → ℕ → FastDecodedField → M (Bool × FastDecodedField)
  decode_sequence type size f = do
    start ← position
    done ← Reader.skip size
    view ← slice_buffer start size
    return (true, record f { type = type; view = view; owned_string = false })

  abbrev pub blank_view : BufferView
  blank_view = record { data_ = none; size = 0 }

  unfoldable pub decode_reference :
      AdaptiveDictionary → FastDecodedField → M (Bool × FastDecodedField)
  decode_reference dictionary f = do
    id ← Reader.read_u16 host
    let looked = lookup_value dictionary id
    let cleared : FastDecodedField = record f {
      type = FieldType.string;
      view = blank_view;
      owned_string = false;
    }
    return (elim looked.code [
      | AdaptiveDictionaryCode.ok ↦
          (true, record cleared { owned = looked.value; owned_string = true })
      | AdaptiveDictionaryCode.miss ↦ (false, cleared)
      | AdaptiveDictionaryCode.full ↦ (false, cleared)
    ])

  -- The table of functions: `false` is a dictionary reference that is not found.
  unfoldable pub decode_field :
      AdaptiveDictionary → FieldCodec → FastDecodedField → M (Bool × FastDecodedField)
  decode_field dictionary u8_value f = do
    v ← Reader.read_u8
    return (true, record f { type = FieldType.u8; as_integer = v })
  decode_field dictionary u16_value f = do
    v ← Reader.read_u16 host
    return (true, record f { type = FieldType.u16; as_integer = v })
  decode_field dictionary u32_value f = do
    v ← Reader.read_u32 host
    return (true, record f { type = FieldType.u32; as_integer = v })
  decode_field dictionary i8_value f = do
    v ← Reader.read_i8
    return (true, record f { type = FieldType.i8; as_integer = to_word (2 ^ 64) v })
  decode_field dictionary i16_value f = do
    v ← Reader.read_i16 host
    return (true, record f { type = FieldType.i16; as_integer = to_word (2 ^ 64) v })
  decode_field dictionary i32_value f = do
    v ← Reader.read_i32 host
    return (true, record f { type = FieldType.i32; as_integer = to_word (2 ^ 64) v })
  decode_field dictionary f32_value f = do
    v ← Reader.read_f32 host
    return (true, record f { type = FieldType.f32; as_float = widen v })
  decode_field dictionary f64_value f = do
    v ← Reader.read_f64 host
    return (true, record f { type = FieldType.f64; as_float = v })
  decode_field dictionary string_value f = do
    size ← Reader.read_u16 host
    if size == dictionary_string_reference_marker
        then decode_reference dictionary f
        else decode_sequence FieldType.string size f
  decode_field dictionary bytes_value f = do
    size ← Reader.read_u16 host
    decode_sequence FieldType.bytes size f

  -- The loop of `decode_plain`; `none` is a reference that is not found.
  unfoldable pub decode_fields :
      AdaptiveDictionary
      → List FieldLayout
      → List FastDecodedField
      → M (Option (List FastDecodedField))
  decode_fields dictionary (layout ∷ layouts) (slot ∷ slots) = do
    field ← decode_field dictionary layout.codec slot
    if not field.0 then return none else do
      rest ← decode_fields dictionary layouts slots
      return (elim rest [ none ↦ none | some fields ↦ some (field.1 ∷ fields) ])
  decode_fields dictionary _ slots = return (some slots)

  abbrev pub zero_field : FieldType → FastDecodedField → FastDecodedField
  zero_field type f = record f { type = type; as_integer = 0; as_float = 0 }

  -- The loop of `decode_optimized`, for the fields from index `i` on.
  unfoldable pub decode_presents :
      AdaptiveDictionary
      → List ℕ
      → ℕ
      → List FieldLayout
      → List FastDecodedField
      → M (Option (List FastDecodedField))
  decode_presents dictionary bitmap i (layout ∷ layouts) (slot ∷ slots) = do
    field ←
        (if not layout.variable_length && is_bit_set bitmap i
          then return (true, zero_field layout.type slot)
          else decode_field dictionary layout.codec slot)
    if not field.0 then return none else do
      rest ← decode_presents dictionary bitmap (i + 1) layouts slots
      return (elim rest [ none ↦ none | some fields ↦ some (field.1 ∷ fields) ])
  decode_presents dictionary bitmap i _ slots = return (some slots)

-- The code, `out_count`, and the slots where the code is `ok`; what stands in them after a failure
-- is left out.
pub record Decoded : Type 0 where
  pub code : FastCodecCode
  pub out_count : ℕ
  pub fields : Option (List FastDecodedField)

abbrev pub refused : FastCodecCode → Decoded
refused code = record { code = code; out_count = 0; fields = none }

-- What follows the loop, with the exception that ends it caught.
unfoldable pub finish : FastCodec → Result (Option (List FastDecodedField)) × PacketReader → Decoded
finish codec (out_of_range, r) = refused decode_truncated
finish codec (Result.ok none, r) = refused dictionary_reference_miss
finish codec (Result.ok (some fields), r) =
    if not (Reader.empty r) then refused decode_truncated else record {
      code = FastCodecCode.ok;
      out_count = length codec.schema.fields;
      fields = some fields;
    }

module _ (host : Host) (widen : ℕ → ℕ) (codec : FastCodec) (dictionary : AdaptiveDictionary) where
  unfoldable pub decode_plain : List ℕ → List FastDecodedField → Decoded
  decode_plain packet slots =
      let walk : M (Option (List FastDecodedField)) = do
        id ← Reader.read_u16 host
        decode_fields host widen dictionary codec.layout.fields slots
      in finish codec (walk (Reader.create packet))

  unfoldable pub decode_optimized : List ℕ → List FastDecodedField → Decoded
  decode_optimized packet slots =
      if ltb (length packet) 4
      then refused decode_truncated
      else let bitmap_size = get_or packet 3 0 in
        if not (bitmap_size == (length codec.schema.fields + 7) / 8)
          || ltb (length packet) (4 + bitmap_size)
        then refused decode_truncated
        else let walk : M (Option (List FastDecodedField)) = do
          id ← Reader.read_u16 host
          marker ← Reader.skip 1
          size ← Reader.skip 1
          bitmap ← Reader.skip bitmap_size
          decode_presents host widen dictionary (drop 4 packet) 0 codec.layout.fields slots
          in finish codec (walk (Reader.create packet))

  -- `none` is nullptr; an array has `max_fields` slots.
  unfoldable pub decode : List ℕ → Option (List FastDecodedField) → Decoded
  decode packet none = refused insufficient_storage
  decode packet (some slots) =
      if ltb (length slots) (length codec.schema.fields)
      then refused insufficient_storage
      else if ltb (length packet) 2
      then refused packet_too_small
      else if get_or packet 0 0 == batch_marker
      then refused unsupported_envelope
      else if not (read_u16_le packet 0 == codec.schema.message_id)
      then refused message_id_mismatch
      else if leb 3 (length packet) && get_or packet 2 0 == optimized_marker
      then decode_optimized packet slots
      else decode_plain packet slots
