-- ===== src/Core/Encoder.antt =====
-- src/core/encoder.cpp. A value of type f32 or f64 is its bit pattern, which is all that the code
-- reads of it; a string is its bytes.
use keydrop.Base.{ℕ, ◌%◌, ◌^◌, List, length, Result, ok, ◌>>=◌, some}
use keydrop.Base.Int.{ℤ, to_word}
use keydrop.Core.View.{Pointer}
use keydrop.Core.Buffer.{Buffer}
use keydrop.Core.Builder
use keydrop.Core.Builder.{PacketBuilder}
use keydrop.Core.Endian.{Host, object_bytes}
use keydrop.Core.Endian.{to_little_endian_16, to_little_endian_32, to_little_endian_64}

pub record Encoder : Type 0 where
  pub builder : PacketBuilder

unfoldable pub write_bytes : Encoder → Pointer → ℕ → Result Encoder
write_bytes e start size = do
  builder ← Builder.write_bytes e.builder start size
  ok (record { builder = builder })

-- `builder_.write<T>` of an object
unfoldable pub write_object : Encoder → List ℕ → Result Encoder
write_object e object = do
  builder ← Builder.write e.builder object
  ok (record { builder = builder })

module _ (host : Host) where
  unfoldable pub write_u8 : Encoder → ℕ → Result Encoder
  unfolding write_object
  write_u8 e value = write_object e (object_bytes host 1 value)

  unfoldable pub write_u16 : Encoder → ℕ → Result Encoder
  unfolding write_object
  write_u16 e value = write_object e (object_bytes host 2 (to_little_endian_16 host value))

  unfoldable pub write_u32 : Encoder → ℕ → Result Encoder
  unfolding write_object
  write_u32 e value = write_object e (object_bytes host 4 (to_little_endian_32 host value))

  unfoldable pub write_i8 : Encoder → ℤ → Result Encoder
  unfolding write_object
  write_i8 e value = write_object e (object_bytes host 1 (to_word (2 ^ 8) value))

  unfoldable pub write_i16 : Encoder → ℤ → Result Encoder
  unfolding write_object
  write_i16 e value =
      write_object e (object_bytes host 2 (to_little_endian_16 host (to_word (2 ^ 16) value)))

  unfoldable pub write_i32 : Encoder → ℤ → Result Encoder
  unfolding write_object
  write_i32 e value =
      write_object e (object_bytes host 4 (to_little_endian_32 host (to_word (2 ^ 32) value)))

  unfoldable pub write_f32 : Encoder → ℕ → Result Encoder
  unfolding write_u32
  write_f32 e bits = write_u32 e bits

  unfoldable pub write_f64 : Encoder → ℕ → Result Encoder
  unfolding write_object
  write_f64 e bits = write_object e (object_bytes host 8 (to_little_endian_64 host bits))

  -- The prefix is the size cut to 16 bits, the bytes are all written.
  unfoldable pub write_string : Encoder → List ℕ → Result Encoder
  unfolding write_u16 write_bytes
  write_string e value = do
    prefixed ← write_u16 e (length value % 2 ^ 16)
    write_bytes prefixed (some value) (length value)

abbrev pub buffer : Encoder → Buffer
buffer e = e.builder.buffer

unfoldable pub take_buffer : Encoder → Buffer × Encoder
take_buffer e =
    let (taken, builder) = Builder.take_buffer e.builder in (taken, record { builder = builder })

unfoldable pub reserve : Encoder → ℕ → Encoder
reserve e n = record { builder = Builder.reserve e.builder n }

unfoldable pub clear : Encoder → Encoder
clear e = record { builder = Builder.clear e.builder }
