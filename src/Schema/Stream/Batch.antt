-- ===== src/Schema/Stream/Batch.antt =====
-- Batches of src/schema/stream_optimizer.cpp: `build_batch_packet` and `expand_incoming`. A vector
-- holds fewer than 2 ^ 63 bytes, so that no sum of a cursor and a size wraps.
pub mod RoundTrip
use keydrop.Base.{
  ℕ, zero, suc, ◌+◌, ◌/◌, ◌%◌, ◌^◌, Bool, true, false, not, ltb, ◌==◌, List, [], ◌∷◌, ◌++◌,
}
use keydrop.Base.{length, get_or, take, drop, if◌then◌else◌, read_u16_le}

abbrev pub batch_marker : ℕ
batch_marker = 0xFC

-- The size, cut to 16 bits, and the packet.
unfoldable pub batch_part : List ℕ → List ℕ
batch_part packet = let len = length packet % 2 ^ 16 in (len % 256) ∷ (len / 2 ^ 8 % 256) ∷ packet

unfoldable pub batch_parts : List (List ℕ) → List ℕ
batch_parts [] = []
batch_parts (packet ∷ rest) = batch_part packet ++ batch_parts rest

unfoldable pub build_batch_packet : List (List ℕ) → List ℕ
build_batch_packet packets = batch_marker ∷ (length packets % 2 ^ 8) ∷ batch_parts packets

-- The loop, with `count` rounds left: the value that is returned, and the packets that are taken
-- from the cursor on.
unfoldable pub expand_parts : List ℕ → ℕ → ℕ → Bool × List (List ℕ)
expand_parts bytes zero cursor = (cursor == length bytes, [])
expand_parts bytes (suc count) cursor =
    let len = read_u16_le bytes cursor in
    let (done, parts) = expand_parts bytes count (cursor + 2 + len) in
    if ltb (length bytes) (cursor + 2)
    then (false, [])
    else if ltb (length bytes) (cursor + 2 + len)
    then (false, [])
    else (done, take len (drop (cursor + 2) bytes) ∷ parts)

unfoldable pub expand_incoming : List ℕ → Bool × List (List ℕ)
expand_incoming packet =
    if length packet == 0
    then (false, [])
    else if not (get_or packet 0 0 == batch_marker)
    then (true, packet ∷ [])
    else if ltb (length packet) 2
    then (false, [])
    else expand_parts packet (get_or packet 1 0) 2
