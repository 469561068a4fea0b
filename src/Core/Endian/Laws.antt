-- ===== src/Core/Endian/Laws.antt =====
-- On every machine the bytes in memory of a converted number are its bytes, lowest first.
use keydrop.Base.{ℕ, ◌*◌, ◌/◌, ◌%◌, ◌^◌, ◌<◌, ◌≡◌, ap, ◌∙◌, sym, arith}
use keydrop.Base.{true, List, [], ◌∷◌, All, IsByte, le_bytes, le_value, length, bit_or, bit_and}
use keydrop.Base.{length-reverse, length-le_bytes, All-reverse, if◌then◌else◌}
use keydrop.Base.{
  le_bytes-le_value, le_value-le_bytes, le_bytes-IsByte, assemble, assemble-le_value,
}
use keydrop.Base.Bits.{bit_and-shifted_byte, bit_or-shift, zero-bit_or}
use mathlib.Core.List.{reverse, reverse-reverse}
use keydrop.Core.Endian.{Endian, Host, little, big, object_bytes, system_endian, compiled_little}
use keydrop.Core.Endian.{
  is_little, or_all, to_little_endian_16, to_little_endian_32, to_little_endian_64,
}

-- The runtime test finds the byte order of the machine.
pub system_endian-order : (host : Host) → system_endian host ≡ host.order
unfolding system_endian
system_endian-order host = ground arith

-- The value of the bytes of `v` in the opposite order.
unfoldable pub swap : ℕ → ℕ → ℕ
swap w v = le_value (reverse (le_bytes w v))

swap_16 : (v : ℕ) → v < 2 ^ 16 → bit_or (v / 2 ^ 8) (v * 2 ^ 8) % 2 ^ 16 ≡ swap 2 v
unfolding swap le_value le_bytes
swap_16 v h = rw (bit_or-shift 8 (v / 2 ^ 8) v (omega arith)) (omega arith)

-- A masked field holds one byte in its place.
field : (k x b : ℕ) → x / 2 ^ k % 256 ≡ b → bit_and x (255 * 2 ^ k) ≡ b * 2 ^ k
field k x b e = bit_and-shifted_byte k x ∙ ap (λ (t : ℕ). t * 2 ^ k) e

-- A chain of fields is the number of its bytes.
or_fields :
    (b : ℕ) (bs : List ℕ) → All IsByte (b ∷ bs) → assemble (b * 2 ^ 0) 8 bs ≡ le_value (b ∷ bs)
unfolding assemble
or_fields b bs h =
    ap (λ t. assemble t 8 bs) (sym (zero-bit_or (b * 2 ^ 0))) ∙ assemble-le_value (b ∷ bs) h

swap_32 :
    (v : ℕ)
    → or_all (bit_and (v / 2 ^ 24) 0x000000FF) (
        bit_and (v / 2 ^ 8) 0x0000FF00
        ∷ bit_and (v * 2 ^ 8 % 2 ^ 32) 0x00FF0000
        ∷ bit_and (v * 2 ^ 24 % 2 ^ 32) 0xFF000000
        ∷ [])
      ≡ swap 4 v
unfolding swap le_bytes assemble
swap_32 v =
    let a = v / 256 / 256 / 256 % 256 in
    let b = v / 256 / 256 % 256 in
    let c = v / 256 % 256 in
    let d = v % 256 in
    rw
      (
        field 0 (v / 2 ^ 24) a (omega arith),
        field 8 (v / 2 ^ 8) b (omega arith),
        field 16 (v * 2 ^ 8 % 2 ^ 32) c (omega arith),
        field 24 (v * 2 ^ 24 % 2 ^ 32) d (omega arith),
      )
      (or_fields a (b ∷ c ∷ d ∷ []) (omega arith))

swap_64 :
    (v : ℕ)
    → or_all (bit_and (v / 2 ^ 56) 0x00000000000000FF) (
        bit_and (v / 2 ^ 40) 0x000000000000FF00
        ∷ bit_and (v / 2 ^ 24) 0x0000000000FF0000
        ∷ bit_and (v / 2 ^ 8) 0x00000000FF000000
        ∷ bit_and (v * 2 ^ 8 % 2 ^ 64) 0x000000FF00000000
        ∷ bit_and (v * 2 ^ 24 % 2 ^ 64) 0x0000FF0000000000
        ∷ bit_and (v * 2 ^ 40 % 2 ^ 64) 0x00FF000000000000
        ∷ bit_and (v * 2 ^ 56 % 2 ^ 64) 0xFF00000000000000
        ∷ [])
      ≡ swap 8 v
unfolding swap le_bytes assemble
swap_64 v =
    let d = v % 256 in
    let c = v / 256 % 256 in
    let b = v / 256 / 256 % 256 in
    let a = v / 256 / 256 / 256 % 256 in
    let u = v / 256 / 256 / 256 / 256 in
    rw
      (
        field 0 (v / 2 ^ 56) (u / 256 / 256 / 256 % 256) (omega arith),
        field 8 (v / 2 ^ 40) (u / 256 / 256 % 256) (omega arith),
        field 16 (v / 2 ^ 24) (u / 256 % 256) (omega arith),
        field 24 (v / 2 ^ 8) (u % 256) (omega arith),
        field 32 (v * 2 ^ 8 % 2 ^ 64) a (omega arith),
        field 40 (v * 2 ^ 24 % 2 ^ 64) b (omega arith),
        field 48 (v * 2 ^ 40 % 2 ^ 64) c (omega arith),
        field 56 (v * 2 ^ 56 % 2 ^ 64) d (omega arith),
      )
      (or_fields (u / 256 / 256 / 256 % 256)
        (u / 256 / 256 % 256 ∷ u / 256 % 256 ∷ u % 256 ∷ a ∷ b ∷ c ∷ d ∷ []) (omega arith))

-- Converting an unsigned value of `w` bytes on a machine of the given order.
unfoldable pub converted : Endian → ℕ → ℕ → ℕ
converted little w v = v
converted big w v = swap w v

module _ (host : Host) where
  choose :
      (v x : ℕ)
      → (if compiled_little host then v else if is_little (system_endian host) then v else x)
        ≡ elim host.order [ little ↦ v | big ↦ x ]
  unfolding compiled_little
  choose v x = rw (system_endian-order host) (ground arith)

  pub to_little_endian_16-converted :
      (v : ℕ) → v < 2 ^ 16 → to_little_endian_16 host v ≡ converted host.order 2 v
  unfolding to_little_endian_16 converted
  to_little_endian_16-converted v h = choose v _ ∙ ground (arith, swap_16 v h)

  pub to_little_endian_32-converted :
      (v : ℕ) → to_little_endian_32 host v ≡ converted host.order 4 v
  unfolding to_little_endian_32 converted
  to_little_endian_32-converted v = choose v _ ∙ ground (arith, swap_32 v)

  pub to_little_endian_64-converted :
      (v : ℕ) → to_little_endian_64 host v ≡ converted host.order 8 v
  unfolding to_little_endian_64 converted
  to_little_endian_64-converted v = choose v _ ∙ ground (arith, swap_64 v)

  le_bytes-swap : (w v : ℕ) → le_bytes w (swap w v) ≡ reverse (le_bytes w v)
  unfolding swap
  le_bytes-swap w v =
      let bs = reverse (le_bytes w v) in
      let e : length bs ≡ w = length-reverse (le_bytes w v) ∙ length-le_bytes w v in
      rw e at (le_bytes-le_value bs (All-reverse IsByte (le_bytes w v) (le_bytes-IsByte w v)))

  object_bytes-converted : (w v : ℕ) → object_bytes host w (converted host.order w v) ≡ le_bytes w v
  unfolding object_bytes converted
  object_bytes-converted w v = ground (arith, le_bytes-swap w v, reverse-reverse (le_bytes w v))

  -- Whatever the byte order of the machine, the memory of a converted value holds the bytes of the
  -- value, lowest first, at each of the three widths.
  pub wire_order :
      (v : ℕ)
      → (v < 2 ^ 16 → object_bytes host 2 (to_little_endian_16 host v) ≡ le_bytes 2 v)
        × (object_bytes host 4 (to_little_endian_32 host v) ≡ le_bytes 4 v)
        × (object_bytes host 8 (to_little_endian_64 host v) ≡ le_bytes 8 v)
  wire_order v = (
    λ h. rw (to_little_endian_16-converted v h) (object_bytes-converted 2 v),
    rw (to_little_endian_32-converted v) (object_bytes-converted 4 v),
    rw (to_little_endian_64-converted v) (object_bytes-converted 8 v),
  )

pub swap-swap : (w v : ℕ) → v < 256 ^ w → swap w (swap w v) ≡ v
unfolding swap
swap-swap w v h =
    let bs = reverse (le_bytes w v) in
    let e : le_bytes w (swap w v) ≡ bs =
      le_bytes-swap (record { order = big; defines_byte_order = true }) w v in
    rw (e, reverse-reverse) (le_value-le_bytes w v h)

-- One byte has no order.
pub object_bytes_one : (host : Host) (v : ℕ) → object_bytes host 1 v ≡ le_bytes 1 v
unfolding object_bytes le_bytes
object_bytes_one host v = ground arith
