-- ===== src/Reliability/Crc.antt =====
-- The CRC32 of src/reliability/corruption_detector.cpp, over numbers of 32 bits.
pub mod Detects
use keydrop.Base.{
  ℕ, zero, suc, ◌+◌, ◌-◌, ◌/◌, ◌%◌, ◌^◌, bit_and, bit_xor, List, [], ◌∷◌, length, take, drop,
}
use keydrop.Base.{if◌then◌else◌, ltb, ◌&&◌}
use keydrop.Core.View.{Pointer, is_null}
use keydrop.Base.{Option, none, some}

-- `mask = 0u - (crc & 1u); crc = (crc >> 1) ^ (0xEDB88320u & mask);`
unfoldable pub crc_bit : ℕ → ℕ
crc_bit crc =
    let mask = (2 ^ 32 - bit_and crc 1) % 2 ^ 32 in bit_xor (crc / 2) (bit_and 0xEDB88320 mask)

unfoldable pub crc_bits : ℕ → ℕ → ℕ
crc_bits zero crc = crc
crc_bits (suc bit) crc = crc_bits bit (crc_bit crc)

unfoldable pub crc_bytes : List ℕ → ℕ → ℕ
unfolding crc_bits crc_bit
crc_bytes [] crc = crc
crc_bytes (b ∷ bs) crc = crc_bytes bs (crc_bits 8 (bit_xor crc b))

-- The loop over `data[begin]` up to `data[end - 1]`, and the complement of 32 bits.
unfoldable pub crc32_range : List ℕ → ℕ → ℕ → ℕ
unfolding crc_bytes
crc32_range bytes begin end =
    0xFFFFFFFF - crc_bytes (take (end - begin) (drop begin bytes)) 0xFFFFFFFF

unfoldable pub crc32 : List ℕ → ℕ
unfolding crc32_range
crc32 packet = crc32_range packet 0 (length packet)

-- The overload on a pointer.
unfoldable pub crc32_raw : Pointer → ℕ → ℕ
unfolding crc32_range is_null
crc32_raw none size = if ltb 0 size then 0 else crc32_range [] 0 size
crc32_raw (some m) size = crc32_range m 0 size
