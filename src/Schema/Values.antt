-- ===== src/Schema/Values.antt =====
-- `FieldValue` of include/keydrop/schema/field_mapper.hpp, and how a value is written. The class has
-- a type and a slot for each type, of which only the slot of its type is ever set.
use keydrop.Base.{ℕ, ◌%◌, ◌^◌, ◌==◌, Bool, true, false, List, [], ◌∷◌, ◌++◌, some, length, le_bytes}
use keydrop.Base.{if◌then◌else◌, Result, ok, ◌>>=◌, Text}
use keydrop.Base.Int.{ℤ, pos, to_word}
use keydrop.Core.Endian.{Host}
use keydrop.Core.Encoder
use keydrop.Core.Encoder.{Encoder}
use keydrop.Core.Packet
use keydrop.Core.Packet.{Item}
use keydrop.Schema.Types
use keydrop.Schema.Types.{FieldType}
pub mod Wire

pub data FieldValue : Type 0 where
  u8 u16 u32 : ℕ → FieldValue
  i8 i16 i32 : ℤ → FieldValue
  f32 f64 : ℕ → FieldValue
  string bytes : List ℕ → FieldValue

-- The member `type`.
unfoldable pub type_of : FieldValue → FieldType
type_of (FieldValue.u8 v) = FieldType.u8
type_of (FieldValue.u16 v) = FieldType.u16
type_of (FieldValue.u32 v) = FieldType.u32
type_of (FieldValue.i8 v) = FieldType.i8
type_of (FieldValue.i16 v) = FieldType.i16
type_of (FieldValue.i32 v) = FieldType.i32
type_of (FieldValue.f32 v) = FieldType.f32
type_of (FieldValue.f64 v) = FieldType.f64
type_of (FieldValue.string s) = FieldType.string
type_of (FieldValue.bytes s) = FieldType.bytes

-- The value of the enumerator.
unfoldable pub tag : FieldType → ℕ
tag FieldType.u8 = 0
tag FieldType.u16 = 1
tag FieldType.u32 = 2
tag FieldType.i8 = 3
tag FieldType.i16 = 4
tag FieldType.i32 = 5
tag FieldType.f32 = 6
tag FieldType.f64 = 7
tag FieldType.string = 8
tag FieldType.bytes = 9

unfoldable pub same_type : FieldType → FieldType → Bool
unfolding tag
same_type a b = tag a == tag b

abbrev pub NamedPayload : Type 0
NamedPayload = List (Text × FieldValue)

abbrev pub OrderedPayload : Type 0
OrderedPayload = List FieldValue

-- `write_value` of src/schema/field_mapper.cpp.
unfoldable pub write_value : Host → Encoder → FieldValue → Result Encoder
write_value host e (FieldValue.u8 v) = Encoder.write_u8 host e v
write_value host e (FieldValue.u16 v) = Encoder.write_u16 host e v
write_value host e (FieldValue.u32 v) = Encoder.write_u32 host e v
write_value host e (FieldValue.i8 v) = Encoder.write_i8 host e v
write_value host e (FieldValue.i16 v) = Encoder.write_i16 host e v
write_value host e (FieldValue.i32 v) = Encoder.write_i32 host e v
write_value host e (FieldValue.f32 v) = Encoder.write_f32 host e v
write_value host e (FieldValue.f64 v) = Encoder.write_f64 host e v
write_value host e (FieldValue.string s) = Encoder.write_string host e s
write_value host e (FieldValue.bytes s) = do
  sized ← Encoder.write_u16 host e (length s % 2 ^ 16)
  if length s == 0 then ok sized else Encoder.write_bytes sized (some s) (length s)
