-- ===== src/Core/Packet/Write.antt =====
-- What the calls of the encoder append.
use keydrop.Base.{
  ℕ, ◌%◌, ◌^◌, ◌<◌, ◌≡◌, refl, sym, ap, ◌∙◌, arith, List, [], ◌∷◌, ◌++◌, length, take, All,
}
use keydrop.Base.{Result, ok, le_bytes, take_all, append-nil, append_assoc, some, max}
use keydrop.Base.Int.{to_word, to_word_16}
use keydrop.Core.Buffer
use keydrop.Core.Builder
use keydrop.Core.Encoder
use keydrop.Core.Encoder.{Encoder, write_object, write_bytes}
use keydrop.Core.Endian.{Host}
use keydrop.Core.Endian.Laws.{wire_order, object_bytes_one}
use keydrop.Core.Packet.{Item, IsValid, wire, wires, write_item, write_items}

abbrev pub content : Encoder → List ℕ
content e = e.builder.buffer.bytes_

-- A call succeeds, and puts the bytes `bs` behind those of `e`.
abbrev pub Appends : Encoder → List ℕ → Result Encoder → Type 0
Appends e bs r = (e' : Encoder) × (r ≡ ok e') × (content e' ≡ content e ++ bs)

write_bytes-Appends :
    (e : Encoder) (bs : List ℕ) → Appends e bs (write_bytes e (some bs) (length bs))
unfolding write_bytes Builder.write_bytes Buffer.append_raw
write_bytes-Appends e [] = (e, refl, sym (append-nil (content e)))
write_bytes-Appends e (b ∷ bs) = (
  record {
    builder = record {
      buffer = record {
        bytes_ = content e ++ take (length (b ∷ bs)) (b ∷ bs);
        capacity_ =
            max e.builder.buffer.capacity_ (length (content e ++ take (length (b ∷ bs)) (b ∷ bs)));
      };
    };
  },
  ground arith,
  ap (λ t. content e ++ t) (take_all (b ∷ bs)),
)

write_object-Appends : (e : Encoder) (bs : List ℕ) → Appends e bs (write_object e bs)
unfolding write_object Builder.write write_bytes
write_object-Appends e bs = write_bytes-Appends e bs

module _ (host : Host) where
  pub write_u16-Appends :
      (e : Encoder) (v : ℕ) → v < 2 ^ 16 → Appends e (le_bytes 2 v) (Encoder.write_u16 host e v)
  unfolding Encoder.write_u16
  write_u16-Appends e v h = rw ((wire_order host v).0 h) (write_object-Appends e (le_bytes 2 v))

  write_u32-Appends : (e : Encoder) (v : ℕ) → Appends e (le_bytes 4 v) (Encoder.write_u32 host e v)
  unfolding Encoder.write_u32
  write_u32-Appends e v = rw (wire_order host v).1 (write_object-Appends e (le_bytes 4 v))

  write_string-Appends :
      (e : Encoder) (s : List ℕ)
      → length s < 2 ^ 16
      → Appends e (le_bytes 2 (length s) ++ s) (Encoder.write_string host e s)
  unfolding Encoder.write_string
  write_string-Appends e s h =
      let fits : length s % 2 ^ 16 ≡ length s = omega arith in
      let (e', written, front) = write_u16-Appends e (length s) h in
      let (e'', more, back) = write_bytes-Appends e' s in
      (
        e'',
        rw (fits, written) more,
        back ∙ ap (λ t. t ++ s) front ∙ append_assoc (content e) (le_bytes 2 (length s)) s,
      )

  -- One call of the encoder appends the wire bytes of its value, on every machine.
  pub write_item-wire :
      (e : Encoder) (i : Item) → IsValid i → Appends e (wire i) (write_item host e i)
  unfolding write_item wire
  write_item-wire e (Item.u8 v) h =
      unfold Encoder.write_u8 in
      rw (object_bytes_one host v) (write_object-Appends e (le_bytes 1 v))
  write_item-wire e (Item.u16 v) h = write_u16-Appends e v h
  write_item-wire e (Item.u32 v) h = write_u32-Appends e v
  write_item-wire e (Item.i8 v) h =
      unfold Encoder.write_i8 in
      rw (object_bytes_one host (to_word (2 ^ 8) v)) (write_object-Appends e _)
  write_item-wire e (Item.i16 v) h =
      unfold Encoder.write_i16 in
      rw ((wire_order host (to_word (2 ^ 16) v)).0 (to_word_16 v h).0) (write_object-Appends e _)
  write_item-wire e (Item.i32 v) h =
      unfold Encoder.write_i32 in
      rw (wire_order host (to_word (2 ^ 32) v)).1 (write_object-Appends e _)
  write_item-wire e (Item.f32 v) h = unfold Encoder.write_f32 in write_u32-Appends e v
  write_item-wire e (Item.f64 v) h =
      unfold Encoder.write_f64 in rw (wire_order host v).2 (write_object-Appends e _)
  write_item-wire e (Item.string s) h = write_string-Appends e s h
  write_item-wire e (Item.bytes s) h = write_bytes-Appends e s

  pub write_items-wires :
      (e : Encoder) (is : List Item) → All IsValid is → Appends e (wires is) (write_items host e is)
  unfolding write_items wires
  write_items-wires e [] h = (e, refl, sym (append-nil (content e)))
  write_items-wires e (i ∷ is) (hi, h) =
      let (e', one, front) = write_item-wire e i hi in
      let (e'', more, back) = write_items-wires e' is h in
      (
        e'',
        rw (one, write_items) more,
        back ∙ ap (λ t. t ++ wires is) front ∙ append_assoc (content e) (wire i) (wires is),
      )
