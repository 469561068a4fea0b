-- ===== src/Schema/Stream/Delta/Numeric.antt =====
-- The bytes of a number's distance from the last value lead back to the number.
use keydrop.Base.{ℕ, ◌^◌, ◌<◌, ◌≡◌, refl, sym, ap, ◌∙◌, arith}
use keydrop.Base.{List, ◌++◌, some, le_bytes}
use keydrop.Base.Int.{ℤ, pos, to_word, from_word, Fits, to_word_16, to_word_32}
use mathlib.Core.Path.{subst}
use keydrop.Core.Endian.{Host, little}
use keydrop.Core.Reader
use keydrop.Core.Reader.{M, PacketReader, ◌>>=◌, return}
use keydrop.Core.Packet.Read.{
  At, Reads, map-Reads, read_u8-Reads, read_u32-Reads, read_u64-Reads, read_i8-Reads,
}
use keydrop.Schema.Types.{FieldType}
use keydrop.Schema.Values.{FieldValue, type_of}
use keydrop.Schema.Values.Wire.{Valid}
use keydrop.Schema.Stream.Delta.{
  ◌-ℤ◌, to_i64, write_signed_le, write_tagged_16, write_tagged_32, write_numeric_delta,
}
use keydrop.Schema.Stream.Delta.{read_tagged_16, read_tagged_32, read_numeric_delta}
use keydrop.Schema.Stream.Delta.Tagged.{low_byte, low_1, read_tagged_16-Finds, read_tagged_32-Finds}

-- A value whose delta is written and read as a number.
abbrev pub IsNumeric : FieldValue → Type 0
IsNumeric (FieldValue.string s) = ⊥
IsNumeric (FieldValue.bytes s) = ⊥
IsNumeric _ = Unit {0}

module _ (p : FieldValue) where
  u8_value : type_of p ≡ FieldType.u8 → (v : ℕ) × (p ≡ FieldValue.u8 v)
  unfolding type_of
  u8_value e = grind arith

  u16_value : type_of p ≡ FieldType.u16 → (v : ℕ) × (p ≡ FieldValue.u16 v)
  unfolding type_of
  u16_value e = grind arith

  u32_value : type_of p ≡ FieldType.u32 → (v : ℕ) × (p ≡ FieldValue.u32 v)
  unfolding type_of
  u32_value e = grind arith

  i8_value : type_of p ≡ FieldType.i8 → (v : ℤ) × (p ≡ FieldValue.i8 v)
  unfolding type_of
  i8_value e = grind arith

  i16_value : type_of p ≡ FieldType.i16 → (v : ℤ) × (p ≡ FieldValue.i16 v)
  unfolding type_of
  i16_value e = grind arith

  i32_value : type_of p ≡ FieldType.i32 → (v : ℤ) × (p ≡ FieldValue.i32 v)
  unfolding type_of
  i32_value e = grind arith

  f32_value : type_of p ≡ FieldType.f32 → (v : ℕ) × (p ≡ FieldValue.f32 v)
  unfolding type_of
  f32_value e = grind arith

  f64_value : type_of p ≡ FieldType.f64 → (v : ℕ) × (p ≡ FieldValue.f64 v)
  unfolding type_of
  f64_value e = grind arith

module _ (host : Host) (order : host.order ≡ little) where
  u16-Reads :
      (p v : ℕ) (rest : List ℕ) (r : PacketReader)
      → v < 2 ^ 16
      → At r (write_tagged_16 (pos v -ℤ pos p) (pos v) ++ rest)
      → Reads (read_numeric_delta host (FieldValue.u16 p)) r (some (FieldValue.u16 v)) rest
  unfolding read_numeric_delta
  u16-Reads p v rest r h at =
      let (c, low, reads) = read_tagged_16-Finds host order (pos p) (pos v) rest r at in
      let same : to_word (2 ^ 16) (pos v) ≡ v = unfold to_word in omega arith in
      map-Reads (read_tagged_16 host (pos p)) _ r _ _ rest
        (ap (λ w. some (FieldValue.u16 w)) (low ∙ same)) reads

  i16-Reads :
      (p v : ℤ) (rest : List ℕ) (r : PacketReader)
      → Fits (2 ^ 16) v
      → At r (write_tagged_16 (v -ℤ p) v ++ rest)
      → Reads (read_numeric_delta host (FieldValue.i16 p)) r (some (FieldValue.i16 v)) rest
  unfolding read_numeric_delta
  i16-Reads p v rest r h at =
      let (c, low, reads) = read_tagged_16-Finds host order p v rest r at in
      let (small, same) = to_word_16 v h in
      map-Reads (read_tagged_16 host p) _ r _ _ rest
        (ap (λ w. some (FieldValue.i16 (from_word (2 ^ 16) w))) low
          ∙ ap (λ w. some (FieldValue.i16 w)) same)
        reads

  u32-Reads :
      (p v : ℕ) (rest : List ℕ) (r : PacketReader)
      → v < 2 ^ 32
      → At r (write_tagged_32 (pos v -ℤ pos p) (pos v) ++ rest)
      → Reads (read_numeric_delta host (FieldValue.u32 p)) r (some (FieldValue.u32 v)) rest
  unfolding read_numeric_delta
  u32-Reads p v rest r h at =
      let (c, low, reads) = read_tagged_32-Finds host order (pos p) (pos v) rest r at in
      let same : to_word (2 ^ 32) (pos v) ≡ v = unfold to_word in omega arith in
      map-Reads (read_tagged_32 host (pos p)) _ r _ _ rest
        (ap (λ w. some (FieldValue.u32 w)) (low ∙ same)) reads

  i32-Reads :
      (p v : ℤ) (rest : List ℕ) (r : PacketReader)
      → Fits (2 ^ 32) v
      → At r (write_tagged_32 (v -ℤ p) v ++ rest)
      → Reads (read_numeric_delta host (FieldValue.i32 p)) r (some (FieldValue.i32 v)) rest
  unfolding read_numeric_delta
  i32-Reads p v rest r h at =
      let (c, low, reads) = read_tagged_32-Finds host order p v rest r at in
      let (small, same) = to_word_32 v h in
      map-Reads (read_tagged_32 host p) _ r _ _ rest
        (ap (λ w. some (FieldValue.i32 (from_word (2 ^ 32) w))) low
          ∙ ap (λ w. some (FieldValue.i32 w)) same)
        reads

  abbrev Exchanged : FieldValue → FieldValue → List ℕ → PacketReader → Type 0
  Exchanged previous current rest r =
      At r (write_numeric_delta previous current ++ rest)
      → Reads (read_numeric_delta host previous) r (some current) rest

  -- On a little-endian machine, where the last and the current value have one type and the current
  -- one is a number that its type holds: a reader that stands before the bytes that
  -- `write_numeric_delta` writes, with any bytes behind them, reads the current value with
  -- `read_numeric_delta` from the last value, and stops behind them.
  pub read_numeric_delta-write_numeric_delta :
      (previous current : FieldValue) (rest : List ℕ) (r : PacketReader)
      → type_of previous ≡ type_of current
      → IsNumeric current
      → Valid current
      → At r (write_numeric_delta previous current ++ rest)
      → Reads (read_numeric_delta host previous) r (some current) rest
  unfolding write_numeric_delta read_numeric_delta to_i64 type_of write_signed_le
  read_numeric_delta-write_numeric_delta previous (FieldValue.u8 v) rest r e n h at =
      let (p, is) = u8_value previous e in
      subst (λ q. Exchanged q (FieldValue.u8 v) rest r) (sym is)
        (λ at. map-Reads Reader.read_u8 _ r v _ rest refl (
          read_u8-Reads rest r v h (
            subst (λ l. At r (l ++ rest))
              (low_1 _ ∙ ap (le_bytes 1) (low_byte (pos v) ∙ unfold to_word in omega arith)) at)))
        at
  read_numeric_delta-write_numeric_delta previous (FieldValue.i8 v) rest r e n h at =
      let (p, is) = i8_value previous e in
      subst (λ q. Exchanged q (FieldValue.i8 v) rest r) (sym is)
        (λ at. map-Reads Reader.read_i8 _ r v _ rest refl (
          read_i8-Reads host order v rest r h
            (subst (λ l. At r (l ++ rest)) (low_1 _ ∙ ap (le_bytes 1) (low_byte v)) at)))
        at
  read_numeric_delta-write_numeric_delta previous (FieldValue.u16 v) rest r e n h at =
      let (p, is) = u16_value previous e in
      subst (λ q. Exchanged q (FieldValue.u16 v) rest r) (sym is) (u16-Reads p v rest r h) at
  read_numeric_delta-write_numeric_delta previous (FieldValue.i16 v) rest r e n h at =
      let (p, is) = i16_value previous e in
      subst (λ q. Exchanged q (FieldValue.i16 v) rest r) (sym is) (i16-Reads p v rest r h) at
  read_numeric_delta-write_numeric_delta previous (FieldValue.u32 v) rest r e n h at =
      let (p, is) = u32_value previous e in
      subst (λ q. Exchanged q (FieldValue.u32 v) rest r) (sym is) (u32-Reads p v rest r h) at
  read_numeric_delta-write_numeric_delta previous (FieldValue.i32 v) rest r e n h at =
      let (p, is) = i32_value previous e in
      subst (λ q. Exchanged q (FieldValue.i32 v) rest r) (sym is) (i32-Reads p v rest r h) at
  read_numeric_delta-write_numeric_delta previous (FieldValue.f32 v) rest r e n h at =
      let (p, is) = f32_value previous e in
      subst (λ q. Exchanged q (FieldValue.f32 v) rest r) (sym is)
        (λ at.
          unfold Reader.read_f32 in
          map-Reads (Reader.read_u32 host) _ r v _ rest refl
            (read_u32-Reads rest r host order v h at))
        at
  read_numeric_delta-write_numeric_delta previous (FieldValue.f64 v) rest r e n h at =
      let (p, is) = f64_value previous e in
      subst (λ q. Exchanged q (FieldValue.f64 v) rest r) (sym is)
        (λ at.
          unfold Reader.read_f64 in
          map-Reads (Reader.read_u64 host) _ r v _ rest refl
            (read_u64-Reads rest r host order v h at))
        at
  read_numeric_delta-write_numeric_delta previous (FieldValue.string v) rest r e n h at = elim n [ ]
  read_numeric_delta-write_numeric_delta previous (FieldValue.bytes v) rest r e n h at = elim n [ ]
