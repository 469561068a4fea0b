-- ===== src/Schema/Stream/Delta.antt =====
-- Delta fields of src/schema/stream_optimizer.cpp: an integer as its distance from the last value.
pub mod Numeric
pub mod Tagged
use keydrop.Base.{
  ℕ, ◌+◌, ◌-◌, ◌*◌, ◌/◌, ◌%◌, ◌^◌, Bool, true, false, leb, ◌==◌, List, [], ◌∷◌, ◌++◌, Option, none,
  some, length,
}
use keydrop.Base.{if◌then◌else◌, le_bytes, Result, ok, out_of_range}
use keydrop.Base.Int.{ℤ, pos, negsuc, to_word, from_word}
use keydrop.Core.Endian.{Host}
use keydrop.Core.Reader
use keydrop.Core.Reader.{M, PacketReader, ◌>>=◌, return}
use keydrop.Schema.Types.{FieldType}
use keydrop.Schema.Values
use keydrop.Schema.Values.{FieldValue, type_of}

-- Sums and differences of `i64`. The operands are of at most 32 bits, so that none overflows.
unfoldable pub sub_nat : ℕ → ℕ → ℤ
sub_nat a b = if leb b a then pos (a - b) else negsuc (b - a - 1)

infixl 20 ◌+ℤ◌ ◌-ℤ◌
unfoldable pub ◌+ℤ◌ : ℤ → ℤ → ℤ
unfolding sub_nat
◌+ℤ◌ (pos a) (pos b) = pos (a + b)
◌+ℤ◌ (pos a) (negsuc b) = sub_nat a (b + 1)
◌+ℤ◌ (negsuc a) (pos b) = sub_nat b (a + 1)
◌+ℤ◌ (negsuc a) (negsuc b) = negsuc (a + b + 1)

unfoldable pub ◌-ℤ◌ : ℤ → ℤ → ℤ
unfolding sub_nat
◌-ℤ◌ (pos a) (pos b) = sub_nat a b
◌-ℤ◌ (pos a) (negsuc b) = pos (a + b + 1)
◌-ℤ◌ (negsuc a) (pos b) = negsuc (a + b)
◌-ℤ◌ (negsuc a) (negsuc b) = sub_nat b a

-- `fits_i8`, `fits_i16` and `fits_i32`, with the bounds `-n` and `n - 1`.
unfoldable pub fits_within : ℕ → ℤ → Bool
fits_within n (pos a) = leb (a + 1) n
fits_within n (negsuc a) = leb (a + 1) n

abbrev pub fits_i8 : ℤ → Bool
fits_i8 = fits_within 128

abbrev pub fits_i16 : ℤ → Bool
fits_i16 = fits_within 32768

abbrev pub fits_i32 : ℤ → Bool
fits_i32 = fits_within 2147483648

-- The out parameter, which stays 0 where the value is no integer.
unfoldable pub to_i64 : FieldValue → ℤ
to_i64 (FieldValue.u8 v) = pos v
to_i64 (FieldValue.u16 v) = pos v
to_i64 (FieldValue.u32 v) = pos v
to_i64 (FieldValue.i8 v) = v
to_i64 (FieldValue.i16 v) = v
to_i64 (FieldValue.i32 v) = v
to_i64 _ = pos 0

-- The loop takes the low bytes of the two's complement of 64 bits.
unfoldable pub write_signed_le : ℤ → ℕ → List ℕ
write_signed_le value size = le_bytes size (to_word (2 ^ 64) value)

-- A tag and the distance, or the tag 3 and the value.
unfoldable pub write_tagged_16 : ℤ → ℤ → List ℕ
unfolding write_signed_le
write_tagged_16 delta value =
    if fits_i8 delta
    then 0 ∷ write_signed_le delta 1
    else if fits_i16 delta
    then 1 ∷ write_signed_le delta 2
    else 3 ∷ write_signed_le value 2

unfoldable pub write_tagged_32 : ℤ → ℤ → List ℕ
unfolding write_signed_le
write_tagged_32 delta value =
    if fits_i8 delta
    then 0 ∷ write_signed_le delta 1
    else if fits_i16 delta
    then 1 ∷ write_signed_le delta 2
    else if fits_i32 delta
    then 2 ∷ write_signed_le delta 4
    else 3 ∷ write_signed_le value 4

-- The bytes that are written.
unfoldable pub write_numeric_delta : FieldValue → FieldValue → List ℕ
unfolding to_i64 write_signed_le write_tagged_16 write_tagged_32
write_numeric_delta previous current =
    let value = to_i64 current in
    let delta = value -ℤ to_i64 previous in
    elim current [
      | FieldValue.u8 v ↦ write_signed_le value 1
      | FieldValue.i8 v ↦ write_signed_le value 1
      | FieldValue.u16 v ↦ write_tagged_16 delta value
      | FieldValue.i16 v ↦ write_tagged_16 delta value
      | FieldValue.u32 v ↦ write_tagged_32 delta value
      | FieldValue.i32 v ↦ write_tagged_32 delta value
      | FieldValue.f32 v ↦ le_bytes 4 v
      | FieldValue.f64 v ↦ le_bytes 8 v
      | FieldValue.string s ↦ []
      | FieldValue.bytes s ↦ []
    ]

-- The masks as arithmetic: the low bits, and above the top one of them the bits of 64 that equal it.
unfoldable pub sign_extend : ℕ → ℕ → ℤ
sign_extend raw size =
    let low = raw % 2 ^ (8 * size) in
    from_word (2 ^ 64)
      (if leb (2 ^ (8 * size - 1)) low then low + (2 ^ 64 - 2 ^ (8 * size)) else low)

module _ (host : Host) where
  -- What stands behind a tag: a distance or a value; `none` is a tag that is not known.
  unfoldable pub read_behind_16 : ℤ → ℕ → M (Option ℤ)
  read_behind_16 prev tag =
      if tag == 0
      then (do raw ← Reader.read_u8; return (some (prev +ℤ sign_extend raw 1)))
      else if tag == 1
      then (do raw ← Reader.read_u16 host; return (some (prev +ℤ sign_extend raw 2)))
      else if tag == 3
      then (do raw ← Reader.read_u16 host; return (some (pos raw)))
      else return none

  unfoldable pub read_behind_32 : ℤ → ℕ → M (Option ℤ)
  read_behind_32 prev tag =
      if tag == 0
      then (do raw ← Reader.read_u8; return (some (prev +ℤ sign_extend raw 1)))
      else if tag == 1
      then (do raw ← Reader.read_u16 host; return (some (prev +ℤ sign_extend raw 2)))
      else if tag == 2
      then (do raw ← Reader.read_u32 host; return (some (prev +ℤ sign_extend raw 4)))
      else if tag == 3
      then (do raw ← Reader.read_u32 host; return (some (pos raw)))
      else return none

  unfoldable pub read_tagged_16 : ℤ → M (Option ℤ)
  unfolding read_behind_16
  read_tagged_16 prev = Reader.read_u8 >>= read_behind_16 prev

  unfoldable pub read_tagged_32 : ℤ → M (Option ℤ)
  unfolding read_behind_32
  read_tagged_32 prev = Reader.read_u8 >>= read_behind_32 prev

  abbrev pub converted : (ℤ → FieldValue) → Option ℤ → Option FieldValue
  converted f o = elim o [ none ↦ none | some cur ↦ some (f cur) ]

  -- `none` is `false`.
  unfoldable pub read_numeric_delta : FieldValue → M (Option FieldValue)
  unfolding read_tagged_16 read_tagged_32
  read_numeric_delta (FieldValue.u8 v) = do raw ← Reader.read_u8; return (some (FieldValue.u8 raw))
  read_numeric_delta (FieldValue.i8 v) = do raw ← Reader.read_i8; return (some (FieldValue.i8 raw))
  read_numeric_delta (FieldValue.u16 v) = do
    cur ← read_tagged_16 (pos v)
    return (converted (λ c. FieldValue.u16 (to_word (2 ^ 16) c)) cur)
  read_numeric_delta (FieldValue.i16 v) = do
    cur ← read_tagged_16 v
    return (converted (λ c. FieldValue.i16 (from_word (2 ^ 16) (to_word (2 ^ 16) c))) cur)
  read_numeric_delta (FieldValue.u32 v) = do
    cur ← read_tagged_32 (pos v)
    return (converted (λ c. FieldValue.u32 (to_word (2 ^ 32) c)) cur)
  read_numeric_delta (FieldValue.i32 v) = do
    cur ← read_tagged_32 v
    return (converted (λ c. FieldValue.i32 (from_word (2 ^ 32) (to_word (2 ^ 32) c))) cur)
  read_numeric_delta (FieldValue.f32 v) = do
    bits ← Reader.read_f32 host
    return (some (FieldValue.f32 bits))
  read_numeric_delta (FieldValue.f64 v) = do
    bits ← Reader.read_f64 host
    return (some (FieldValue.f64 bits))
  read_numeric_delta (FieldValue.string s) = return none
  read_numeric_delta (FieldValue.bytes s) = return none
