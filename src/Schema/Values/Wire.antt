-- ===== src/Schema/Values/Wire.antt =====
-- The bytes that a value is written as, and the values that the C++ types hold.
use keydrop.Base.{ℕ, ◌%◌, ◌^◌, ◌<◌, ◌≡◌, refl, sym, ap, ◌∙◌, ◌↔◌, ◌==◌, arith, true}
use keydrop.Base.{List, [], ◌∷◌, ◌++◌, length, le_bytes, All, append-nil, append_assoc, IsByte}
use keydrop.Base.{Bool-cases, inl, inr, ==_iff, nil_of_length}
use keydrop.Base.Int.{to_word, Fits}
use keydrop.Core.Endian.{Host}
use keydrop.Core.Encoder.{Encoder}
use keydrop.Core.Packet
use keydrop.Core.Packet.{Item}
use keydrop.Core.Packet.Write.{content, Appends, write_item-wire}
use keydrop.Schema.Types.{FieldType}
use keydrop.Schema.Values.{FieldValue, same_type, write_value}

-- The values of the C++ types, with strings and byte vectors whose size fits the prefix.
abbrev pub Valid : FieldValue → Type 0
Valid (FieldValue.u8 v) = v < 2 ^ 8
Valid (FieldValue.u16 v) = v < 2 ^ 16
Valid (FieldValue.u32 v) = v < 2 ^ 32
Valid (FieldValue.i8 v) = Fits (2 ^ 8) v
Valid (FieldValue.i16 v) = Fits (2 ^ 16) v
Valid (FieldValue.i32 v) = Fits (2 ^ 32) v
Valid (FieldValue.f32 v) = v < 2 ^ 32
Valid (FieldValue.f64 v) = v < 2 ^ 64
Valid (FieldValue.string s) = (length s < 2 ^ 16) × All IsByte s
Valid (FieldValue.bytes s) = (length s < 2 ^ 16) × All IsByte s

unfoldable pub value_wire : FieldValue → List ℕ
value_wire (FieldValue.u8 v) = le_bytes 1 v
value_wire (FieldValue.u16 v) = le_bytes 2 v
value_wire (FieldValue.u32 v) = le_bytes 4 v
value_wire (FieldValue.i8 v) = le_bytes 1 (to_word (2 ^ 8) v)
value_wire (FieldValue.i16 v) = le_bytes 2 (to_word (2 ^ 16) v)
value_wire (FieldValue.i32 v) = le_bytes 4 (to_word (2 ^ 32) v)
value_wire (FieldValue.f32 v) = le_bytes 4 v
value_wire (FieldValue.f64 v) = le_bytes 8 v
value_wire (FieldValue.string s) = le_bytes 2 (length s) ++ s
value_wire (FieldValue.bytes s) = le_bytes 2 (length s) ++ s

unfoldable pub values_wire : List FieldValue → List ℕ
values_wire [] = []
values_wire (v ∷ vs) = value_wire v ++ values_wire vs

pub same_type_iff : (a b : FieldType) → (same_type a b ≡ true) ↔ (a ≡ b)
unfolding same_type
same_type_iff a b = ground arith

module _ (host : Host) where
  -- A byte vector: the size, and then the bytes if there are any.
  bytes-Appends :
      (e : Encoder) (s : List ℕ)
      → length s < 2 ^ 16
      → Appends e (le_bytes 2 (length s) ++ s) (write_value host e (FieldValue.bytes s))
  unfolding write_value Packet.write_item Packet.wire
  bytes-Appends e s small =
      let fits : length s % 2 ^ 16 ≡ length s = omega arith in
      let (e', sized, front) = write_item-wire host e (Item.u16 (length s)) small in
      elim (Bool-cases (length s == 0)) [
        | inl empty ↦
            let none_there = nil_of_length s ((==_iff (length s) 0).0 empty) in
            (
              e',
              rw (fits, sized, empty) refl,
              front
                  ∙ ap (λ t. content e ++ t) (sym (append-nil _))
                  ∙ ap (λ t. content e ++ (le_bytes 2 (length s) ++ t)) (sym none_there),
            )
        | inr some_there ↦
            let (e'', more, back) = write_item-wire host e' (Item.bytes s) tt in
            (
              e'',
              rw (fits, sized, some_there) more,
              back ∙ ap (λ t. t ++ s) front ∙ append_assoc (content e) (le_bytes 2 (length s)) s,
            )
      ]

  -- A valid value is written as its wire bytes, on every machine.
  pub write_value-wire :
      (e : Encoder) (v : FieldValue) → Valid v → Appends e (value_wire v) (write_value host e v)
  unfolding write_value value_wire Packet.write_item Packet.wire
  write_value-wire e (FieldValue.u8 v) h = write_item-wire host e (Item.u8 v) h
  write_value-wire e (FieldValue.u16 v) h = write_item-wire host e (Item.u16 v) h
  write_value-wire e (FieldValue.u32 v) h = write_item-wire host e (Item.u32 v) h
  write_value-wire e (FieldValue.i8 v) h = write_item-wire host e (Item.i8 v) h
  write_value-wire e (FieldValue.i16 v) h = write_item-wire host e (Item.i16 v) h
  write_value-wire e (FieldValue.i32 v) h = write_item-wire host e (Item.i32 v) h
  write_value-wire e (FieldValue.f32 v) h = write_item-wire host e (Item.f32 v) h
  write_value-wire e (FieldValue.f64 v) h = write_item-wire host e (Item.f64 v) h
  write_value-wire e (FieldValue.string s) (small, bytes) =
      write_item-wire host e (Item.string s) small
  write_value-wire e (FieldValue.bytes s) (small, bytes) = bytes-Appends e s small
