-- ===== src/Schema/Stream/Frames.antt =====
-- Delta packets of src/schema/stream_optimizer.cpp: `build_delta_packet` and `expand_delta`.
pub mod Bitmap
pub mod Fields
pub mod Current
pub mod RoundTrip
use keydrop.Base.{
  ℕ, ◌+◌, ◌/◌, ◌%◌, ◌^◌, not, ltb, ◌==◌, Bool, true, false, ◌||◌, List, [], ◌∷◌, ◌++◌, Option, none,
  some, length,
}
use keydrop.Base.{
  if◌then◌else◌, get_or, drop, replicate, le_bytes, is_bit_set, set_bit, read_u16_le, Result, ok,
  out_of_range, Text, text_key, find, assign,
}
use keydrop.Core.Endian.{Host}
use keydrop.Core.Buffer.{empty_buffer}
use keydrop.Core.Encoder
use keydrop.Core.Encoder.{Encoder}
use keydrop.Core.Reader
use keydrop.Core.Reader.{M, ◌>>=◌, return}
use keydrop.Schema.Types.{FieldType, FieldDef, SchemaDef, is_variable_length}
use keydrop.Schema.Values
use keydrop.Schema.Values.{FieldValue, NamedPayload, write_value}
use keydrop.Schema.Stream.Changes.{Floats, field_changed}
use keydrop.Schema.Stream.Delta.{write_numeric_delta, read_numeric_delta}

abbrev pub delta_marker : ℕ
delta_marker = 0xFB

-- The size, cut to 16 bits, and the sequence; a number has none.
unfoldable pub write_delta_field : FieldValue → List ℕ
write_delta_field (FieldValue.string s) = le_bytes 2 (length s % 2 ^ 16) ++ s
write_delta_field (FieldValue.bytes s) = le_bytes 2 (length s % 2 ^ 16) ++ s
write_delta_field _ = []

unfoldable pub remaining_bytes : M Bool
remaining_bytes r = (ok (not (Reader.empty r)), r)

abbrev pub taken : Option (NamedPayload × Encoder) → Option (NamedPayload × List ℕ)
taken none = none
taken (some (merged, e)) = some (merged, (Encoder.take_buffer e).0.bytes_)

abbrev pub blank_encoder : Encoder
blank_encoder = record { builder = record { buffer = empty_buffer } }

-- A call that leaves the reader alone.
abbrev pub lifted : {A : Type 0} → Result A → M A
lifted x r = (x, r)

module _ (host : Host) where
  unfoldable pub read_delta_field : FieldType → M (Option FieldValue)
  read_delta_field FieldType.string = do
    s ← Reader.read_string host
    return (some (FieldValue.string s))
  read_delta_field FieldType.bytes = do
    size ← Reader.read_u16 host
    s ← Reader.read_bytes size
    return (some (FieldValue.bytes s))
  read_delta_field _ = return none

module _ (floats : Floats) (previous current : NamedPayload) where
  -- The loop that marks what changed, from field `i` on.
  unfoldable pub mark_changed : List ℕ → ℕ → List FieldDef → List ℕ
  mark_changed bitmap i [] = bitmap
  mark_changed bitmap i (field ∷ rest) =
      mark_changed
        (if field_changed floats previous current field.name then set_bit bitmap i else bitmap)
        (i + 1) rest

-- The bytes of a field that is marked; `none` where a payload does not have it.
unfoldable pub delta_field : NamedPayload → NamedPayload → FieldDef → Option (List ℕ)
delta_field previous current field = elim (find field.name previous) [
  | none ↦ none
  | some p ↦ elim (find field.name current) [
    | none ↦ none
    | some c ↦
        some
          (if is_variable_length field.type then write_delta_field c else write_numeric_delta p c)
  ]
]

-- The loop that writes the marked fields, from field `i` on.
unfoldable pub delta_fields :
    List ℕ → NamedPayload → NamedPayload → ℕ → List FieldDef → Option (List ℕ)
unfolding delta_field
delta_fields bitmap previous current i [] = some []
delta_fields bitmap previous current i (field ∷ rest) =
    let more = delta_fields bitmap previous current (i + 1) rest in
    if not (is_bit_set bitmap i) then more else elim (delta_field previous current field) [
      | none ↦ none
      | some front ↦ elim more [ none ↦ none | some back ↦ some (front ++ back) ]
    ]

-- The packet; `none` is `false`.
unfoldable pub build_delta_packet :
    Floats → SchemaDef → NamedPayload → NamedPayload → ℕ → Option (List ℕ)
unfolding mark_changed delta_fields
build_delta_packet floats schema previous current sequence =
    let bitmap_size = (length schema.fields + 7) / 8 in
    let bitmap = mark_changed floats previous current (replicate bitmap_size 0) 0 schema.fields in
    elim (delta_fields bitmap previous current 0 schema.fields) [
      | none ↦ none
      | some fields ↦ some (
          delta_marker
          ∷ (le_bytes 2 schema.message_id
              ++ (le_bytes 2 sequence ++ ((bitmap_size % 2 ^ 8) ∷ (bitmap ++ fields)))))
    ]

module _ (host : Host) where
  -- The value of a field: the last one, or what the packet has for it; `none` is `false`.
  unfoldable pub expand_field : Bool → FieldDef → FieldValue → M (Option FieldValue)
  unfolding read_delta_field
  expand_field changed field last =
      if not changed
      then return (some last)
      else if is_variable_length field.type
      then read_delta_field host field.type
      else read_numeric_delta host last

  -- The loop from field `i` on, with the payload that is merged and the packet that is written.
  unfoldable pub expand_fields :
      List ℕ
      → NamedPayload
      → ℕ
      → List FieldDef
      → NamedPayload
      → Encoder
      → M (Option (NamedPayload × Encoder))
  unfolding expand_field
  expand_fields bytes previous i [] merged e = return (some (merged, e))
  expand_fields bytes previous i (field ∷ rest) merged e =
      let changed = is_bit_set (drop 6 bytes) i in
      elim (find field.name previous) [
        | none ↦ return none
        | some last ↦ expand_field changed field last >>= λ value. elim value [
          | none ↦ return none
          | some v ↦ lifted (write_value host e v) >>= λ e'.
              expand_fields bytes previous (i + 1) rest
                (if changed then assign field.name v merged else merged) e'
        ]
      ]

  -- What stands behind the header, and nothing behind that.
  unfoldable pub expand_body :
      SchemaDef → ℕ → List ℕ → NamedPayload → M (Option (NamedPayload × List ℕ))
  unfolding expand_fields remaining_bytes
  expand_body schema bitmap_size bytes previous = do
    header ← Reader.skip 6
    bitmap ← Reader.skip bitmap_size
    e ← lifted (Encoder.write_u16 host blank_encoder schema.message_id)
    expanded ← expand_fields bytes previous 0 schema.fields previous e
    trailing ← remaining_bytes
    return (if trailing then none else taken expanded)

  -- `expand_delta`, with what the receiver has last decoded of the schema, if it has, and the
  -- sequence that it expects. `none` is `false`, else there is the payload and the full packet; the
  -- reader throws where the fields end too early.
  unfoldable pub expand_delta :
      SchemaDef → List ℕ → Option NamedPayload → ℕ → Result (Option (NamedPayload × List ℕ))
  unfolding expand_body
  expand_delta schema packet last expected =
      if ltb (length packet) 6
      then ok none
      else if not (get_or packet 0 0 == delta_marker)
      then ok none
      else if not (read_u16_le packet 1 == schema.message_id)
      then ok none
      else if ltb (length packet) (6 + get_or packet 5 0)
      then ok none
      else elim last [
        | none ↦ ok none
        | some previous ↦
            if not (read_u16_le packet 3 == expected)
            then ok none
            else (expand_body schema (get_or packet 5 0) packet previous (Reader.create packet)).0
      ]
