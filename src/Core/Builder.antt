-- ===== src/Core/Builder.antt =====
-- src/core/packet_builder.cpp, and the template `write<T>` of its header.
use keydrop.Base.{ℕ, List, length, some, Result, ok, ◌>>=◌}
use keydrop.Core.View.{Pointer}
use keydrop.Core.Buffer
use keydrop.Core.Buffer.{Buffer, empty_buffer}

pub record PacketBuilder : Type 0 where
  pub buffer : Buffer

unfoldable pub write_bytes : PacketBuilder → Pointer → ℕ → Result PacketBuilder
write_bytes b start size = do
  buffer ← Buffer.append_raw b.buffer start size
  ok (record { buffer = buffer })

-- `write<T>(value)` appends the object's `sizeof(T)` bytes in memory.
unfoldable pub write : PacketBuilder → List ℕ → Result PacketBuilder
unfolding write_bytes
write b object = write_bytes b (some object) (length object)

-- The buffer is moved out, and an empty one is left.
unfoldable pub take_buffer : PacketBuilder → Buffer × PacketBuilder
take_buffer b = (b.buffer, record { buffer = empty_buffer })

unfoldable pub reserve : PacketBuilder → ℕ → PacketBuilder
reserve b n = record { buffer = Buffer.reserve b.buffer n }

unfoldable pub clear : PacketBuilder → PacketBuilder
clear b = record { buffer = Buffer.clear b.buffer }
