-- ===== src/Core/Packet.antt =====
-- A packet as a client makes and reads it: a sequence of calls of the encoder, and the sequence of
-- the matching calls of the reader.
pub mod Write
pub mod Read
pub mod RoundTrip
use keydrop.Base.{ℕ, ◌%◌, ◌^◌, ◌<◌, List, [], ◌∷◌, ◌++◌, length, some, All, IsByte, le_bytes}
use keydrop.Base.{Result, ok, out_of_range}
use keydrop.Base.Int.{ℤ, to_word, Fits}
use keydrop.Core.Endian.{Host}
use keydrop.Core.Encoder
use keydrop.Core.Encoder.{Encoder}
use keydrop.Core.Reader
use keydrop.Core.Reader.{M, return, ◌>>=◌}

-- A value that one call writes. A float is its bit pattern, a string its bytes.
pub data Item : Type 0 where
  u8 u16 u32 : ℕ → Item
  i8 i16 i32 : ℤ → Item
  f32 f64 : ℕ → Item
  string bytes : List ℕ → Item

-- What the reader must know to read it: the call, and its argument.
pub data Kind : Type 0 where
  u8 u16 u32 i8 i16 i32 f32 f64 string : Kind
  bytes : ℕ → Kind

unfoldable pub kind : Item → Kind
kind (Item.u8 v) = Kind.u8
kind (Item.u16 v) = Kind.u16
kind (Item.u32 v) = Kind.u32
kind (Item.i8 v) = Kind.i8
kind (Item.i16 v) = Kind.i16
kind (Item.i32 v) = Kind.i32
kind (Item.f32 v) = Kind.f32
kind (Item.f64 v) = Kind.f64
kind (Item.string s) = Kind.string
kind (Item.bytes s) = Kind.bytes (length s)

-- The values of the C++ types, and the strings whose size fits the prefix.
abbrev pub IsValid : Item → Type 0
IsValid (Item.u8 v) = v < 2 ^ 8
IsValid (Item.u16 v) = v < 2 ^ 16
IsValid (Item.u32 v) = v < 2 ^ 32
IsValid (Item.i8 v) = Fits (2 ^ 8) v
IsValid (Item.i16 v) = Fits (2 ^ 16) v
IsValid (Item.i32 v) = Fits (2 ^ 32) v
IsValid (Item.f32 v) = v < 2 ^ 32
IsValid (Item.f64 v) = v < 2 ^ 64
IsValid (Item.string s) = length s < 2 ^ 16
IsValid (Item.bytes s) = Unit

-- The bytes that stand for a value on the wire.
unfoldable pub wire : Item → List ℕ
wire (Item.u8 v) = le_bytes 1 v
wire (Item.u16 v) = le_bytes 2 v
wire (Item.u32 v) = le_bytes 4 v
wire (Item.i8 v) = le_bytes 1 (to_word (2 ^ 8) v)
wire (Item.i16 v) = le_bytes 2 (to_word (2 ^ 16) v)
wire (Item.i32 v) = le_bytes 4 (to_word (2 ^ 32) v)
wire (Item.f32 v) = le_bytes 4 v
wire (Item.f64 v) = le_bytes 8 v
wire (Item.string s) = le_bytes 2 (length s) ++ s
wire (Item.bytes s) = s

unfoldable pub wires : List Item → List ℕ
wires [] = []
wires (i ∷ is) = wire i ++ wires is

module _ (host : Host) where
  unfoldable pub write_item : Encoder → Item → Result Encoder
  write_item e (Item.u8 v) = Encoder.write_u8 host e v
  write_item e (Item.u16 v) = Encoder.write_u16 host e v
  write_item e (Item.u32 v) = Encoder.write_u32 host e v
  write_item e (Item.i8 v) = Encoder.write_i8 host e v
  write_item e (Item.i16 v) = Encoder.write_i16 host e v
  write_item e (Item.i32 v) = Encoder.write_i32 host e v
  write_item e (Item.f32 v) = Encoder.write_f32 host e v
  write_item e (Item.f64 v) = Encoder.write_f64 host e v
  write_item e (Item.string s) = Encoder.write_string host e s
  write_item e (Item.bytes s) = Encoder.write_bytes e (some s) (length s)

  unfoldable pub write_items : Encoder → List Item → Result Encoder
  write_items e [] = ok e
  write_items e (i ∷ is) = elim (write_item e i) [
    | ok e' ↦ write_items e' is
    | out_of_range ↦ out_of_range
  ]

  unfoldable pub read_item : Kind → M Item
  read_item Kind.u8 = do v ← Reader.read_u8; return (Item.u8 v)
  read_item Kind.u16 = do v ← Reader.read_u16 host; return (Item.u16 v)
  read_item Kind.u32 = do v ← Reader.read_u32 host; return (Item.u32 v)
  read_item Kind.i8 = do v ← Reader.read_i8; return (Item.i8 v)
  read_item Kind.i16 = do v ← Reader.read_i16 host; return (Item.i16 v)
  read_item Kind.i32 = do v ← Reader.read_i32 host; return (Item.i32 v)
  read_item Kind.f32 = do v ← Reader.read_f32 host; return (Item.f32 v)
  read_item Kind.f64 = do v ← Reader.read_f64 host; return (Item.f64 v)
  read_item Kind.string = do s ← Reader.read_string host; return (Item.string s)
  read_item (Kind.bytes n) = do s ← Reader.read_bytes n; return (Item.bytes s)

  unfoldable pub read_items : List Kind → M (List Item)
  read_items [] = return []
  read_items (k ∷ ks) = do i ← read_item k; is ← read_items ks; return (i ∷ is)
