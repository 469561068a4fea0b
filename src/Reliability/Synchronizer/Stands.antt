-- ===== src/Reliability/Synchronizer/Stands.antt =====
-- Where a packet stands in a stream, said without the code that measures it.
use keydrop.Base.{
  ℕ, suc, append_assoc, ◌+◌, ◌/◌, ◌≤◌, ◌≡◌, ◌≢◌, ◌⊎◌, inl, inr, refl, sym, ap, ◌∙◌, arith, true,
  false, Bool-cases, List, [], ◌∷◌, ◌++◌, some, length, take, drop, get_or, is_bit_set, read_u16_le,
  drop-drop, drop-append, length-append,
}
use keydrop.Schema.Types.{FieldDef, SchemaDef}
use keydrop.Schema.Layout.{FieldLayout, build_packet_layout}
use keydrop.Schema.Layout.Fields.{
  descriptions, sum_by, least_size, any_variable, build_packet_layout-Describes,
}
use keydrop.Schema.Registry.{SchemaRegistry, find_by_message_id, find_layout_by_message_id}
use keydrop.Reliability.Keydrop.Conforms.{
  Conforms, FieldBytes, fixed, reference, literal, declared, length_reached,
}
use keydrop.Reliability.Keydrop.Packets.{Conforms-fixed}
use keydrop.Reliability.Synchronizer.{
  measure_variable_field, measure_field, measure_fields, measure_present, measure_presents,
  measure_unoptimized_packet, measure_optimized_packet, measure_packet, slice_buffer,
  candidate_is_valid, recover_at, recovered,
}

-- The bytes of the fields of an optimized packet, in order: from bit `i` on, a fixed field whose bit
-- is set has none.
abbrev pub Present : List ℕ → ℕ → List FieldLayout → List ℕ → Type 0
Present bitmap i [] bytes = bytes ≡ []
Present bitmap i (f ∷ fs) bytes =
    ((f.variable_length ≡ false) × (is_bit_set bitmap i ≡ true) × Present bitmap (i + 1) fs bytes)
    ⊎ (((f.variable_length ≡ true) ⊎ (is_bit_set bitmap i ≡ false))
        × (seg : List ℕ) × (tail : List ℕ) × (bytes ≡ seg ++ tail)
        × FieldBytes f seg
        × Present bitmap (i + 1) fs tail)

-- The `n` bytes at the offset have the form of a packet of the schema: the id and the fields; or
-- the id, the mark, the size of the bitmap and the bitmap, and the fields that are present.
pub data Shaped (s : SchemaDef) (stream : List ℕ) (o n : ℕ) : Type 0 where
  plain :
      (body tail : List ℕ)
      → o + 2 ≤ length stream
      → (o + 3 ≤ length stream → get_or stream (o + 2) 0 ≢ 0xFD)
      → drop (o + 2) stream ≡ body ++ tail
      → Conforms (descriptions [] s.fields) body
      → n ≡ 2 + length body
      → Shaped s stream o n
  optimized :
      (size : ℕ) (body tail : List ℕ)
      → size ≡ (length s.fields + 7) / 8
      → o + 4 + size ≤ length stream
      → get_or stream (o + 2) 0 ≡ 0xFD
      → get_or stream (o + 3) 0 ≡ size
      → drop (o + 4 + size) stream ≡ body ++ tail
      → Present (drop (o + 4) stream) 0 (descriptions [] s.fields) body
      → n ≡ 4 + size + length body
      → Shaped s stream o n

-- At the offset stand `n` bytes of that form for a schema that the registry has under the id read
-- there, with its layout, and the deoptimizer and the corruption check accept them.
pub record Stands (registry : SchemaRegistry) (stream : List ℕ) (o n : ℕ) (s : SchemaDef)
    : Type 0 where
  pub found : find_by_message_id registry (read_u16_le stream o) ≡ some s
  pub laid_out :
      find_layout_by_message_id registry (read_u16_le stream o) ≡ some (build_packet_layout s)
  pub shaped : Shaped s stream o n
  pub valid : candidate_is_valid s (build_packet_layout s) (take n (drop o stream)) ≡ true

pub Shaped-length :
    (s : SchemaDef) (stream : List ℕ) (o n : ℕ) → Shaped s stream o n → o + 2 ≤ length stream
Shaped-length s stream o n (plain body tail two unmarked e conforms size) = two
Shaped-length s stream o n (optimized size body tail whole inside mark sized e present n_is) =
    omega arith

module _ (p : List ℕ) where
  FieldBytes-measure_field :
      (c : ℕ) (f : FieldLayout) (seg tail : List ℕ)
      → c ≤ length p
      → drop c p ≡ seg ++ tail
      → FieldBytes f seg
      → measure_field p c f ≡ some (c + length seg)
  unfolding measure_field measure_variable_field
  FieldBytes-measure_field c f seg tail inside e (fixed var size) =
      ground (arith, length_reached p c inside seg tail e)
  FieldBytes-measure_field c f seg tail inside e (reference id var str two s) = ground (
    arith,
    length_reached p c inside seg tail e,
    declared p c inside 0xFFFF id seg tail (omega arith) e s,
  )
  FieldBytes-measure_field c f seg tail inside e (literal content var small free limit s) = ground (
    arith,
    length_reached p c inside seg tail e,
    declared p c inside (length content) content seg tail small e s,
  )

  -- A segment at a cursor, and the bytes behind it.
  record Passed (c : ℕ) (seg rest tail : List ℕ) : Type 0 where
    at_cursor : drop c p ≡ seg ++ (rest ++ tail)
    inside : c + length seg ≤ length p
    behind : drop (c + length seg) p ≡ rest ++ tail

  passed :
      (c : ℕ) (body seg rest tail : List ℕ)
      → c ≤ length p
      → drop c p ≡ body ++ tail
      → body ≡ seg ++ rest
      → Passed c seg rest tail
  passed c body seg rest tail inside e split =
      let here : drop c p ≡ seg ++ (rest ++ tail) =
        e ∙ ap (λ l. l ++ tail) split ∙ append_assoc seg rest tail in
      record {
        at_cursor = here;
        inside = length_reached p c inside seg (rest ++ tail) here;
        behind =
            sym (drop-drop (length seg) c p)
            ∙ ap (drop (length seg)) here
            ∙ drop-append seg (rest ++ tail) (length seg) refl;
      }

  summed :
      (c : ℕ) (body seg rest : List ℕ)
      → body ≡ seg ++ rest
      → some (c + length seg + length rest) ≡ some (c + length body)
  summed c body seg rest e = ap some (omega (arith, ap length e, length-append seg rest))

  Conforms-measure_fields :
      (fs : List FieldLayout) (c : ℕ) (body tail : List ℕ)
      → c ≤ length p
      → drop c p ≡ body ++ tail
      → Conforms fs body
      → measure_fields p c fs ≡ some (c + length body)
  unfolding measure_fields
  Conforms-measure_fields [] c body tail inside e h = ap some (omega (arith, ap length h))
  Conforms-measure_fields (f ∷ fs) c body tail inside e (seg, rest, split, field, more) =
      let pass = passed c body seg rest tail inside e split in
      let one = FieldBytes-measure_field c f seg (rest ++ tail) inside pass.at_cursor field in
      let others =
        Conforms-measure_fields fs (c + length seg) rest tail pass.inside pass.behind more in
      rw (one, measure_fields) (others ∙ summed c body seg rest split)

  Present-measure_presents :
      (m : List ℕ) (fs : List FieldLayout) (c i : ℕ) (body tail : List ℕ)
      → c ≤ length p
      → drop c p ≡ body ++ tail
      → Present m i fs body
      → measure_presents p m c i fs ≡ some (c + length body)
  unfolding measure_presents
  Present-measure_presents m [] c i body tail inside e h = ap some (omega (arith, ap length h))
  Present-measure_presents m (f ∷ fs) c i body tail inside e (inl (var, set, more)) =
      let one : measure_present p m c i f ≡ some c =
        unfold measure_present in ground (arith, var, set) in
      rw (one, measure_presents) (Present-measure_presents m fs c (i + 1) body tail inside e more)
  Present-measure_presents m (f ∷ fs) c i body tail inside e
        (inr (kept, seg, rest, split, field, more)) =
      let pass = passed c body seg rest tail inside e split in
      let one = FieldBytes-measure_field c f seg (rest ++ tail) inside pass.at_cursor field in
      let same : measure_present p m c i f ≡ measure_field p c f =
        unfold measure_present measure_field in ground (arith, kept) in
      let others =
        Present-measure_presents m fs (c + length seg) (i + 1) rest tail pass.inside pass.behind
          more in
      rw (same ∙ one, measure_presents) (others ∙ summed c body seg rest split)

length-descriptions : (fs before : List FieldDef) → length (descriptions before fs) ≡ length fs
unfolding descriptions
length-descriptions [] before = refl
length-descriptions (f ∷ fs) before = ap suc (length-descriptions fs (before ++ (f ∷ [])))

-- What has the form of a packet is measured.
Shaped-measure_packet :
    (s : SchemaDef) (stream : List ℕ) (o n : ℕ)
    → Shaped s stream o n
    → measure_packet (build_packet_layout s) stream o ≡ some n
unfolding measure_packet measure_unoptimized_packet measure_optimized_packet
Shaped-measure_packet s stream o n (plain body tail two unmarked e conforms size) =
    let l = build_packet_layout s in
    let d = build_packet_layout-Describes s in
    let run : measure_fields stream (o + 2) l.fields ≡ some (o + 2 + length body) = rw d.each (
      Conforms-measure_fields stream (descriptions [] s.fields) (o + 2) body tail two e conforms) in
    let reached = length_reached stream (o + 2) two body tail e in
    elim (Bool-cases l.fixed_size_only) [
      | inl only ↦
          let none_variable : any_variable s.fields ≡ false = ground (arith, d.totals.only_fixed) in
          let fixed_size : l.fixed_packet_size ≡ 2 + sum_by least_size s.fields =
            ground (arith, only, d.fixed, d.totals.least) in
          let whole : l.fixed_packet_size ≡ n =
            omega
              (arith, size, Conforms-fixed s.fields [] body none_variable conforms, fixed_size) in
          ground (arith, only, whole, unmarked, reached)
      | inr some_variable ↦ ground (arith, some_variable, run, unmarked, size)
    ]
Shaped-measure_packet s stream o n
      (optimized size body tail whole inside mark sized e present n_is) =
    let l = build_packet_layout s in
    let d = build_packet_layout-Describes s in
    let m = drop (o + 4) stream in
    let run : measure_presents stream m (o + 4 + size) 0 l.fields
        ≡ some (o + 4 + size + length body) =
      rw d.each (
        Present-measure_presents stream m (descriptions [] s.fields) (o + 4 + size) 0 body tail
          inside e present) in
    let many : length l.fields ≡ length s.fields =
      ap length d.each ∙ length-descriptions s.fields [] in
    ground (arith, run, many, mark, sized, whole, inside, n_is)

-- Where a packet stands, one is recovered.
pub Stands-recover_at :
    (registry : SchemaRegistry) (stream : List ℕ) (o n : ℕ) (s : SchemaDef)
    → Stands registry stream o n s
    → recover_at registry stream o ≡ some (recovered stream o s n)
unfolding recover_at slice_buffer
Stands-recover_at registry stream o n s h =
    let measured = Shaped-measure_packet s stream o n h.shaped in
    ground (arith, h.found, h.laid_out, measured, h.valid)
