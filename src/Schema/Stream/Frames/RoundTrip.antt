-- ===== src/Schema/Stream/Frames/RoundTrip.antt =====
-- A delta packet expands to the values that changed and the last values of the other fields.
use keydrop.Base.{
  ℕ, ◌+◌, ◌*◌, ◌/◌, ◌%◌, ◌^◌, ◌≤◌, ◌<◌, ◌≡◌, ◌≢◌, refl, sym, ap, ◌∙◌, inl, inr, arith, Bool, true,
  Bool-cases,
}
use keydrop.Base.{
  List, [], ◌∷◌, ◌++◌, Option, none, some, length, le_bytes, All, append-nil, ok, if◌then◌else◌,
  drop, get_or, replicate, find, Text, text_key, length-append,
}
use keydrop.Base.{
  length-replicate, read_u16_le, read_u16_le-le_bytes, replicate-IsByte, is_bit_set-replicate,
}
use mathlib.Core.Path.{subst}
use keydrop.Core.Endian.{Host, little}
use keydrop.Core.Builder
use keydrop.Core.Encoder
use keydrop.Core.Encoder.{Encoder}
use keydrop.Core.Reader
use keydrop.Core.Reader.{M, PacketReader, ◌>>=◌, return}
use keydrop.Core.Packet
use keydrop.Core.Packet.{Item}
use keydrop.Core.Packet.Read.{At, Reads, >>=-ok, behind, behind-At, skip-behind, remaining-At}
use keydrop.Core.Packet.Write.{content, write_item-wire}
use keydrop.Schema.Types.{FieldDef, SchemaDef}
use keydrop.Schema.Values.{NamedPayload, OrderedPayload}
use keydrop.Schema.Values.Wire.{values_wire}
use keydrop.Schema.Fast.Encode.{packet_of}
use keydrop.Schema.Stream.Changes.{Floats, field_changed}
use keydrop.Schema.Stream.Frames.Current.{AllCurrent, Chosen-AllCurrent}
use keydrop.Schema.Stream.Frames.{
  delta_marker, mark_changed, delta_fields, build_delta_packet, expand_fields, expand_body,
  expand_delta, blank_encoder, lifted, remaining_bytes, taken,
}
use keydrop.Schema.Stream.Frames.Bitmap.{mark_changed-Marked, length-mark_changed, Marked-append}
use keydrop.Schema.Stream.Frames.Fields.{
  HasField, Marked, Settles, Expands, expand_fields-delta_fields,
}

-- The six bytes in front of the bitmap.
abbrev header_of : ℕ → ℕ → ℕ → List ℕ
header_of id sequence size =
    delta_marker ∷ (le_bytes 2 id ++ (le_bytes 2 sequence ++ ((size % 2 ^ 8) ∷ [])))

module _ (host : Host) (schema : SchemaDef) (bytes : List ℕ) (previous : NamedPayload) where
  abbrev answered : Option (NamedPayload × Encoder) → Bool → M (Option (NamedPayload × List ℕ))
  answered expanded trailing = return (if trailing then none else taken expanded)

  abbrev finishing : Option (NamedPayload × Encoder) → M (Option (NamedPayload × List ℕ))
  finishing expanded = remaining_bytes >>= answered expanded

  abbrev expanding : Encoder → M (Option (NamedPayload × List ℕ))
  expanding e = expand_fields host bytes previous 0 schema.fields previous e >>= finishing

  abbrev writing : M (Option (NamedPayload × List ℕ))
  writing = lifted (Encoder.write_u16 host blank_encoder schema.message_id) >>= expanding

  finishing-run :
      (after : NamedPayload) (e : Encoder) (r : PacketReader)
      → At r []
      → finishing (some (after, e)) r ≡ (ok (some (after, content e)), r)
  unfolding remaining_bytes Reader.empty Encoder.take_buffer Builder.take_buffer
  finishing-run after e r at = ground (arith, remaining-At r [] at)

  -- Where the header, the bitmap and the fields are read, what the loop gives is what is given.
  expand_body-run :
      (size : ℕ) (header bitmap out : List ℕ) (e e' : Encoder) (after : NamedPayload)
      (r : PacketReader)
      → 6 ≡ length header
      → size ≡ length bitmap
      → At r (header ++ (bitmap ++ out))
      → Encoder.write_u16 host blank_encoder schema.message_id ≡ ok e
      → Reads
          (expand_fields host bytes previous 0 schema.fields previous e)
          (behind bitmap (behind header r))
          (some (after, e'))
          []
      → (r' : PacketReader) × (expand_body host schema size bytes previous r
          ≡ (ok (some (after, content e')), r'))
  unfolding expand_body
  expand_body-run size header bitmap out e e' after r six sized at written (r', read, left, same) =
      let at' = behind-At header (bitmap ++ out) r at in
      let skipped = ap (λ n. Reader.skip n r) six ∙ skip-behind header (bitmap ++ out) r at in
      let passed =
        ap (λ n. Reader.skip n (behind header r)) sized
        ∙ skip-behind bitmap out (behind header r) at' in
      (
        r',
        >>=-ok (Reader.skip 6) (λ u. Reader.skip size >>= λ w. writing) skipped
            ∙ >>=-ok (Reader.skip size) (λ w. writing) passed
            ∙ >>=-ok (lifted (Encoder.write_u16 host blank_encoder schema.message_id)) expanding
                (ap (λ w. (w, behind bitmap (behind header r))) written)
            ∙ >>=-ok (expand_fields host bytes previous 0 schema.fields previous e) finishing read
            ∙ finishing-run after e' r' left,
      )

module _ (host : Host) (schema : SchemaDef) (sequence size : ℕ) (bitmap out : List ℕ) where
  abbrev frame : List ℕ
  frame = header_of schema.message_id sequence size ++ (bitmap ++ out)

  module _ (id : schema.message_id < 2 ^ 16) (small : sequence < 2 ^ 16) (few : size < 2 ^ 8)
      (sized : size ≡ length bitmap) where
    abbrev Header : Type 0
    Header =
        (6 + size ≤ length frame)
        × (get_or frame 0 0 ≡ delta_marker)
        × (read_u16_le frame 1 ≡ schema.message_id)
        × (read_u16_le frame 3 ≡ sequence)
        × (get_or frame 5 0 ≡ size)
        × (drop 6 frame ≡ bitmap ++ out)

    frame-Header : Header
    unfolding le_bytes
    frame-Header = (
      omega (arith, length-append bitmap out),
      refl,
      read_u16_le-le_bytes frame (drop 3 frame) 1 schema.message_id id refl,
      read_u16_le-le_bytes frame (drop 5 frame) 3 sequence small refl,
      omega arith,
      refl,
    )

    -- The sequence that is expected: what stands behind the header is expanded.
    expand_delta-expected :
        (previous : NamedPayload)
        → expand_delta host schema frame (some previous) sequence
          ≡ (expand_body host schema size frame previous (Reader.create frame)).0
    unfolding expand_delta
    expand_delta-expected previous =
        let (long, marker, is_id, is_sequence, is_size, behind_it) = frame-Header in
        ground (arith, long, marker, is_id, is_sequence, is_size)

    -- Another sequence: the packet is refused.
    expand_delta-unexpected :
        (last : Option NamedPayload) (expected : ℕ)
        → expected ≢ sequence
        → expand_delta host schema frame last expected ≡ ok none
    unfolding expand_delta
    expand_delta-unexpected last expected ne =
        let (long, marker, is_id, is_sequence, is_size, behind_it) = frame-Header in
        ground (arith, long, marker, is_id, is_sequence, is_size)

-- What the receiver makes of a delta packet: the payload and the full packet of the current values.
abbrev pub Expanded : Host → Floats → SchemaDef → NamedPayload → NamedPayload → ℕ → List ℕ → Type 0
Expanded host floats schema previous current sequence packet =
    (vs : OrderedPayload) × (merged : NamedPayload) × (expand_delta host schema packet
        (some previous) sequence
      ≡ ok (some (merged, packet_of schema vs)))
    × AllCurrent floats previous current merged schema.fields vs

module _ (host : Host) (floats : Floats) (schema : SchemaDef) (previous current : NamedPayload)
    (sequence : ℕ) where
  abbrev size_of : ℕ
  size_of = (length schema.fields + 7) / 8

  abbrev bitmap_of : List ℕ
  bitmap_of = mark_changed floats previous current (replicate size_of 0) 0 schema.fields

  build_delta_packet-run :
      (out : List ℕ)
      → delta_fields bitmap_of previous current 0 schema.fields ≡ some out
      → build_delta_packet floats schema previous current sequence
        ≡ some (frame host schema sequence size_of bitmap_of out)
  unfolding build_delta_packet le_bytes
  build_delta_packet-run out h =
      let packet : Option (List ℕ) → Option (List ℕ) = λ o. elim o [
        | none ↦ none
        | some fields ↦ some (frame host schema sequence size_of bitmap_of fields)
      ] in
      ap packet h

  settled :
      (fs : List FieldDef) (merged : NamedPayload)
      → Settles (field_changed floats previous current) current previous merged
      → All
          (λ f.
            field_changed floats previous current f.name ≡ true
            → find f.name merged ≡ find f.name current)
          fs
      → All
          (λ f.
            find f.name merged
            ≡ find f.name
                (if field_changed floats previous current f.name then current else previous))
          fs
  settled [] merged s all = tt
  settled (f ∷ fs) merged s (each, all) = (
    elim (Bool-cases (field_changed floats previous current f.name)) [
      | inl changed ↦ rw changed (each changed)
      | inr same ↦ rw same (ground (arith, s f.name, same))
    ],
    settled fs merged s all,
  )

  abbrev changed : Text → Bool
  changed = field_changed floats previous current

  bitmap_of-Marked :
      (size_of ≡ length bitmap_of)
      × (0 + length schema.fields ≤ 8 * length bitmap_of)
      × Marked changed bitmap_of 0 schema.fields
  bitmap_of-Marked =
      let blank = replicate-IsByte size_of in
      let clear = length-replicate {A = ℕ} size_of 0 in
      let sized : size_of ≡ length bitmap_of = sym (
        length-mark_changed floats previous current schema.fields (replicate size_of 0) 0 blank
        ∙ clear) in
      (
        sized,
        omega (arith, sized),
        mark_changed-Marked floats previous current schema.fields (replicate size_of 0) 0 blank
            (omega (arith, clear)) (λ j after. is_bit_set-replicate size_of j),
      )

  module _ (order : host.order ≡ little) (id : schema.message_id < 2 ^ 16)
      (small : sequence < 2 ^ 16) (size : size_of < 2 ^ 8) where
    -- The receiver in step expands the frame.
    frame-Expanded :
        (out : List ℕ)
        → All (HasField previous current) schema.fields
        → Expands host order changed previous current 0 schema.fields out
        → length (frame host schema sequence size_of bitmap_of out) < 2 ^ 64
        → Expanded host floats schema previous current sequence
            (frame host schema sequence size_of bitmap_of out)
    unfolding Reader.create Packet.wire Packet.write_item
    frame-Expanded out has expands fits =
        let packet = frame host schema sequence size_of bitmap_of out in
        let (sized, room, marked) = bitmap_of-Marked in
        let header = header_of schema.message_id sequence size_of in
        let six : 6 ≡ length header = unfold le_bytes in refl in
        let start = Reader.create packet in
        let at : At start (header ++ (bitmap_of ++ out)) = record {
          within = omega arith;
          small = fits;
          follows = refl;
        } in
        let at_out =
          behind-At bitmap_of out (behind header start)
            (behind-At header (bitmap_of ++ out) start at) in
        let (e, written, in_e) =
          write_item-wire host blank_encoder (Item.u16 schema.message_id) id in
        let (long, marker, is_id, is_sequence, is_size, tail) =
          frame-Header host schema sequence size_of bitmap_of out id small size sized in
        let same_marks : Marked changed (drop 6 packet) 0 schema.fields =
          subst (λ l. Marked changed l 0 schema.fields) (sym tail)
            (Marked-append changed schema.fields bitmap_of out 0 room marked) in
        let (vs, merged, e', reads, in_e', chosen, settles, each) =
          expands packet same_marks previous e [] (behind bitmap_of (behind header start))
            (subst (At (behind bitmap_of (behind header start))) (sym (append-nil out)) at_out) in
        let (r', run) =
          expand_body-run host schema packet previous size_of header bitmap_of out e e' merged start
            six sized at written reads in
        (
          vs,
          merged,
          expand_delta-expected host schema sequence size_of bitmap_of out id small size sized
                previous
              ∙ ap (λ p. p.0) run
              ∙ ap (λ l. ok (some (merged, l))) (in_e' ∙ ap (λ l. l ++ values_wire vs) in_e),
          Chosen-AllCurrent floats previous current merged schema.fields vs has chosen
              (settled schema.fields merged settles each),
        )

  -- On a little-endian machine, with at most 2040 fields, an id and a sequence of 16 bits: where
  -- both payloads have a valid value of the right type for each field, a delta packet is built. A
  -- receiver that last decoded the previous payload and expects the sequence expands it, if it is
  -- shorter than 2 ^ 64 bytes, to the packet of the current values, and to a payload that has them
  -- for the fields; only in place of a float there may be the previous one, if the machine finds the
  -- two equal. A receiver that expects another sequence, whatever it last decoded, refuses it.
  pub expand_delta-build_delta_packet :
      host.order ≡ little
      → All (HasField previous current) schema.fields
      → length schema.fields ≤ 2040
      → schema.message_id < 2 ^ 16
      → sequence < 2 ^ 16
      → (packet : List ℕ) × (build_delta_packet floats schema previous current sequence
          ≡ some packet)
        × (length packet < 2 ^ 64 → Expanded host floats schema previous current sequence packet)
        × ((last : Option NamedPayload) (expected : ℕ)
            → expected ≢ sequence
            → expand_delta host schema packet last expected ≡ ok none)
  expand_delta-build_delta_packet order has few id small =
      let (sized, room, marked) = bitmap_of-Marked in
      let (out, built, expands) =
        expand_fields-delta_fields host order changed previous current bitmap_of schema.fields 0 has
          marked in
      let packet = frame host schema sequence size_of bitmap_of out in
      let size : size_of < 2 ^ 8 = omega arith in
      (
        packet,
        build_delta_packet-run out built,
        frame-Expanded order id small size out has expands,
        λ last expected ne.
            expand_delta-unexpected host schema sequence size_of bitmap_of out id small size sized
              last expected ne,
      )
