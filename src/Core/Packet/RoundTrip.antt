-- ===== src/Core/Packet/RoundTrip.antt =====
-- Encoding and decoding a packet, on machines of the two byte orders.
use keydrop.Base.{ℕ, ◌^◌, ◌<◌, ◌≡◌, ap, sym, ◌∙◌, arith, List, [], ◌++◌, map, length, All}
use keydrop.Base.{
  ok, le_bytes, le_value, true, refl, ◌↔◌, ◌%◌, ◌/◌, assemble, append-nil, length-le_bytes,
}
use keydrop.Core.Endian.{Host, little, big, from_little_endian_16}
use keydrop.Core.Endian.Laws.{swap, converted, to_little_endian_16-converted}
use keydrop.Core.Buffer.{empty_buffer}
use keydrop.Core.Encoder
use keydrop.Core.Encoder.{Encoder}
use keydrop.Core.Reader
use keydrop.Core.Reader.{PacketReader, next}
use keydrop.Core.Packet.{Item, kind, IsValid, wires, write_items, read_items}
use keydrop.Core.Packet.Write.{content, write_items-wires, write_u16-Appends}
use keydrop.Core.Packet.Read.{At, read_items-Reads, remaining-At, next-Reads, map-Reads, value}

abbrev pub fresh : Encoder
fresh = record { builder = record { buffer = empty_buffer } }

-- On a little-endian machine every sequence of calls of the encoder with valid values succeeds,
-- and, if the packet is shorter than 2 ^ 64 bytes, the matching calls of the reader give the same
-- values, in order, and leave no byte unread.
pub read_items-write_items :
    (host : Host) (is : List Item)
    → host.order ≡ little
    → All IsValid is
    → length (wires is) < 2 ^ 64
    → (e : Encoder) × (r : PacketReader) × (write_items host fresh is ≡ ok e)
      × (read_items host (map kind is) (Reader.create (content e)) ≡ (ok is, r))
      × (Reader.empty r ≡ true)
unfolding Reader.create Reader.empty
read_items-write_items host is order valid small =
    let (e, written, bytes) = write_items-wires host fresh is valid in
    let start : At (Reader.create (content e)) (wires is) = record {
      within = omega arith;
      small = omega (arith, ap length bytes);
      follows = bytes;
    } in
    let (r, read, left, same) =
      read_items-Reads host order is (Reader.create (content e)) valid start in
    (e, r, written, read, ground (arith, remaining-At r [] left))

converted_big : (host : Host) → host.order ≡ big → (v : ℕ) → converted host.order 2 v ≡ swap 2 v
unfolding converted
converted_big host order v = rw order

swap_fixed : (v : ℕ) → v < 2 ^ 16 → (swap 2 v ≡ v) ↔ (v % 256 ≡ v / 256)
unfolding swap le_bytes le_value
swap_fixed v h = (λ e. omega arith, λ e. omega arith)

-- On a big-endian machine `read_u16` gives the two bytes of the value that `write_u16` was given in
-- the opposite order: the encoder converts to the order of the wire, and the reader, which builds
-- the number from the bytes by shifts, converts once more. So the value comes back exactly where
-- its two bytes are equal.
pub read_u16-write_u16_big :
    (host : Host) (v : ℕ)
    → host.order ≡ big
    → v < 2 ^ 16
    → (e : Encoder) × (r : PacketReader) × (w : ℕ) × (Encoder.write_u16 host fresh v ≡ ok e)
      × (Reader.read_u16 host (Reader.create (content e)) ≡ (ok w, r))
      × (w ≡ swap 2 v)
      × ((w ≡ v) ↔ (v % 256 ≡ v / 256))
unfolding Reader.create Reader.read_u16
read_u16-write_u16_big host v order h =
    let (e, written, bytes) = write_u16-Appends host fresh v h in
    let start : At (Reader.create (content e)) (le_bytes 2 v ++ []) = record {
      within = omega arith;
      small = omega (arith, ap length bytes, length-le_bytes 2 v);
      follows = bytes ∙ sym (append-nil (le_bytes 2 v));
    } in
    let twice : from_little_endian_16 host (assemble 0 0 (le_bytes 2 v)) ≡ swap 2 v =
      ap (from_little_endian_16 host) (value 2 v h)
      ∙ to_little_endian_16-converted host v h
      ∙ converted_big host order v in
    let (r, read, left, same) =
      map-Reads (next 2) (λ bs. from_little_endian_16 host (assemble 0 0 bs))
        (Reader.create (content e)) (le_bytes 2 v) (swap 2 v) [] twice
        (next-Reads (le_bytes 2 v) [] (Reader.create (content e)) 2 (sym (length-le_bytes 2 v))
          start) in
    (e, r, swap 2 v, written, read, refl, swap_fixed v h)
