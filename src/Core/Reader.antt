-- ===== src/Core/Reader.antt =====
-- src/core/packet_reader.cpp: a cursor over the bytes of a buffer, which is behind a reference and
-- does not change. A method gives its result, or the exception, with the reader that it leaves.
use keydrop.Base.{ℕ, ◌+◌, ◌-◌, ◌%◌, ◌^◌, Bool, List, length, take, drop, ltb, ◌==◌, if◌then◌else◌}
use keydrop.Base.{Result, ok, out_of_range, assemble}
use keydrop.Base.Int.{ℤ, from_word}
use keydrop.Core.Endian.{Host}
use keydrop.Core.Endian.{from_little_endian_16, from_little_endian_32, from_little_endian_64}

pub record PacketReader : Type 0 where
  pub buffer : List ℕ
  pub cursor : ℕ

-- A method on a reader, and the sequence of two: an exception ends it.
abbrev pub M : Type 0 → Type 0
M A = PacketReader → Result A × PacketReader

infixl 5 ◌>>=◌
abbrev pub ◌>>=◌ : {A B : Type 0} → M A → (A → M B) → M B
◌>>=◌ m f r = let (a, r') = m r in elim a [ ok x ↦ f x r' | out_of_range ↦ (out_of_range, r') ]

abbrev pub return : {A : Type 0} → A → M A
return x r = (ok x, r)

unfoldable pub create : List ℕ → PacketReader
create bytes = record { buffer = bytes; cursor = 0 }

-- `usize` subtraction wraps.
unfoldable pub remaining : PacketReader → ℕ
remaining r = (length r.buffer + 2 ^ 64 - r.cursor) % 2 ^ 64

unfoldable pub empty : PacketReader → Bool
unfolding remaining
empty r = remaining r == 0

-- The next `n` bytes, behind the test on `remaining()`.
unfoldable pub next : ℕ → M (List ℕ)
next n r =
    if ltb (remaining r) n
    then (out_of_range, r)
    else (ok (take n (drop r.cursor r.buffer)), record r { cursor = (r.cursor + n) % 2 ^ 64 })

unfoldable pub read_u8 : M ℕ
read_u8 = do data_ ← next 1; return (assemble 0 0 data_)

unfoldable pub read_i8 : M ℤ
read_i8 = do value ← read_u8; return (from_word (2 ^ 8) value)

-- The bytes that `read_string_from_size` and `read_bytes` copy.
unfoldable pub read_bytes : ℕ → M (List ℕ)
read_bytes size = next size

unfoldable pub read_string_from_size : ℕ → M (List ℕ)
read_string_from_size size = next size

unfoldable pub skip : ℕ → M (Unit {0})
unfolding remaining
skip size r =
    if ltb (remaining r) size
    then (out_of_range, r)
    else (ok tt, record r { cursor = (r.cursor + size) % 2 ^ 64 })

unfoldable pub reset : PacketReader → PacketReader
reset r = record r { cursor = 0 }

module _ (host : Host) where
  unfoldable pub read_u16 : M ℕ
  read_u16 = do data_ ← next 2; return (from_little_endian_16 host (assemble 0 0 data_))

  unfoldable pub read_u32 : M ℕ
  read_u32 = do data_ ← next 4; return (from_little_endian_32 host (assemble 0 0 data_))

  unfoldable pub read_u64 : M ℕ
  read_u64 = do data_ ← next 8; return (from_little_endian_64 host (assemble 0 0 data_))

  unfoldable pub read_i16 : M ℤ
  read_i16 = do value ← read_u16; return (from_word (2 ^ 16) value)

  unfoldable pub read_i32 : M ℤ
  read_i32 = do value ← read_u32; return (from_word (2 ^ 32) value)

  unfoldable pub read_f32 : M ℕ
  read_f32 = read_u32

  unfoldable pub read_f64 : M ℕ
  read_f64 = read_u64

  unfoldable pub read_string : M (List ℕ)
  read_string = do size ← read_u16; read_string_from_size size
