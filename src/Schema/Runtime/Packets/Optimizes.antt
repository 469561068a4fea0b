-- ===== src/Schema/Runtime/Packets/Optimizes.antt =====
-- The optimizer takes every packet that conforms to its schema.
use keydrop.Base.{
  ℕ, ◌+◌, ◌-◌, ◌/◌, ◌≤◌, ◌≡◌, refl, sym, ap, ◌∙◌, inl, inr, arith, List, [], ◌∷◌, ◌++◌, some, none,
  length, All, IsByte, drop, take, true, false, Bool-cases, ◌⊎◌, ◌||◌, set_bit, leb, length-drop,
  drop-drop, drop-append, read_u16_le, replicate,
}
use mathlib.Core.Path.{subst}
use keydrop.Schema.Types.{
  FieldType, FieldDef, SchemaDef, try_field_type_fixed_size, is_variable_length, is_string,
  is_bytes,
}
use keydrop.Schema.Layout.Fields.{describe, descriptions, fixed_bytes}
use keydrop.Schema.Optimizer.{
  Optimizing, RuntimeOptimizerConfig, all_zero, total_size, optimize_field, optimize_fields,
  optimize_packet, candidate, result,
}
use keydrop.Reliability.Keydrop.Conforms.{
  FieldBytes, fixed, reference, literal, Conforms, declared, length_reached,
}

sequence_type :
    (t : FieldType)
    → is_variable_length t ≡ true
    → (try_field_type_fixed_size t ≡ none) × ((is_string t || is_bytes t) ≡ true)
unfolding is_variable_length try_field_type_fixed_size is_string is_bytes
sequence_type t h = ground arith

fixed_type :
    (t : FieldType)
    → is_variable_length t ≡ false
    → try_field_type_fixed_size t ≡ some (fixed_bytes t)
unfolding is_variable_length try_field_type_fixed_size fixed_bytes
fixed_type t h = ground arith

module _ (p : List ℕ) (s : Optimizing) (i : ℕ) (bytes : All IsByte p)
    (inside : s.cursor ≤ length p) where
  -- The round takes the bytes of the field.
  abbrev Takes : FieldType → ℕ → Type 0
  Takes t n = (s' : Optimizing) × (optimize_field p s i t ≡ some s') × (s'.cursor ≡ s.cursor + n)

  fixed_taken :
      (t : FieldType)
      → is_variable_length t ≡ false
      → s.cursor + fixed_bytes t ≤ length p
      → Takes t (fixed_bytes t)
  unfolding optimize_field
  fixed_taken t plain fits =
      let n = fixed_bytes t in
      let size = fixed_type t plain in
      elim (Bool-cases (all_zero p s.cursor n)) [
        | inl zeros ↦ (
          record s { bitmap = set_bit s.bitmap i; cursor = s.cursor + n },
          ground (arith, size, zeros, fits),
          refl,
        )
        | inr other ↦ (
          record s { body = s.body ++ take n (drop s.cursor p); cursor = s.cursor + n },
          ground (arith, size, other, fits),
          refl,
        )
      ]

  sequence_taken :
      (t : FieldType) (n : ℕ)
      → is_variable_length t ≡ true
      → total_size t p s.cursor ≡ n
      → 2 ≤ n
      → s.cursor + n ≤ length p
      → Takes t n
  unfolding optimize_field
  sequence_taken t n variable size two fits =
      let kind = sequence_type t variable in
      (
        record s { body = s.body ++ take n (drop s.cursor p); cursor = s.cursor + n },
        ground (arith, kind.0, kind.1, size, two, fits),
        refl,
      )

  field_taken :
      (f : FieldDef) (before : List FieldDef) (seg tail : List ℕ)
      → drop s.cursor p ≡ seg ++ tail
      → FieldBytes (describe before f) seg
      → Takes f.type (length seg)
  unfolding describe total_size
  field_taken f before seg tail e (fixed plain size) =
      let reached = length_reached p s.cursor inside seg tail e in
      subst (Takes f.type) (sym size) (fixed_taken f.type plain (omega (arith, reached, size)))
  field_taken f before seg tail e (reference id variable str two b) =
      let reached = length_reached p s.cursor inside seg tail e in
      let (value, size) = declared p s.cursor inside 0xFFFF id seg tail (omega arith) e b in
      subst (Takes f.type) (sym size) (
        sequence_taken f.type (2 + length id) variable (ground (arith, str, value, two))
          (omega arith) (omega (arith, reached, size)))
  field_taken f before seg tail e (literal content variable small plain limit b) =
      let reached = length_reached p s.cursor inside seg tail e in
      let (value, size) = declared p s.cursor inside (length content) content seg tail small e b in
      subst (Takes f.type) (sym size) (
        sequence_taken f.type (2 + length content) variable (ground (arith, value, plain))
          (omega arith) (omega (arith, reached, size)))

optimize_fields-step :
    (p : List ℕ) (s s' : Optimizing) (i : ℕ) (f : FieldDef) (fs : List FieldDef)
    → optimize_field p s i f.type ≡ some s'
    → optimize_fields p s i (f ∷ fs) ≡ optimize_fields p s' (i + 1) fs
unfolding optimize_fields
optimize_fields-step p s s' i f fs e = ground (arith, e)

takes_fields :
    (fs before : List FieldDef) (p : List ℕ) (s : Optimizing) (i : ℕ)
    → All IsByte p
    → s.cursor ≤ length p
    → Conforms (descriptions before fs) (drop s.cursor p)
    → (s' : Optimizing) × (optimize_fields p s i fs ≡ some s') × (s'.cursor ≡ length p)
unfolding descriptions optimize_fields
takes_fields [] before p s i bytes inside c =
    (s, refl, omega (arith, ap length c, length-drop s.cursor p, inside))
takes_fields (f ∷ fs) before p s i bytes inside (seg, tail, e, field, rest) =
    let (s', one, moved) = field_taken p s i bytes inside f before seg tail e field in
    let reached = length_reached p s.cursor inside seg tail e in
    let next : drop s'.cursor p ≡ tail =
      ap (λ c. drop c p) moved
      ∙ sym (drop-drop (length seg) s.cursor p)
      ∙ ap (drop (length seg)) e
      ∙ drop-append seg tail (length seg) refl in
    let (s'', more, end) =
      takes_fields fs (before ++ (f ∷ [])) p s' (i + 1) bytes (omega (arith, moved, reached))
        (subst (Conforms (descriptions (before ++ (f ∷ [])) fs)) (sym next) rest) in
    (s'', optimize_fields-step p s s' i f fs one ∙ more, end)

-- A packet that conforms is left as it is, or is given in a shorter form, with the same id.
pub optimize_packet-cases :
    (schema : SchemaDef) (packet output : List ℕ) (config : RuntimeOptimizerConfig)
    → All IsByte packet
    → 2 ≤ length packet
    → length schema.fields ≤ 2040
    → config.enabled ≡ true
    → config.enable_zero_value_omission ≡ true
    → Conforms (descriptions [] schema.fields) (drop 2 packet)
    → (optimize_packet schema packet output config ≡ (result true false 0, packet))
      ⊎ ((saved : ℕ) × (out : List ℕ) × (optimize_packet schema packet output config
            ≡ (result true true saved, out))
          × (2 ≤ length out)
          × (read_u16_le out 0 ≡ read_u16_le packet 0))
unfolding optimize_packet read_u16_le
optimize_packet-cases schema packet output config bytes two few on zeros conforms =
    let start : Optimizing = record {
      cursor = 2;
      bitmap = replicate ((length schema.fields + 7) / 8) 0;
      body = [];
    } in
    let (s, ran, end) = takes_fields schema.fields [] packet start 0 bytes two conforms in
    elim (Bool-cases (leb (length packet) (length (candidate packet s)))) [
      | inl longer ↦ inl (ground (arith, ran, end, two, few, on, zeros, longer))
      | inr shorter ↦ inr (
        length packet - length (candidate packet s),
        candidate packet s,
        ground (arith, ran, end, two, few, on, zeros, shorter),
        omega arith,
        refl,
      )
    ]
