-- ===== src/Schema/Stream/Changes.antt =====
-- What changes from one payload to the next, in src/schema/stream_optimizer.cpp.
use keydrop.Base.{ℕ, ◌+◌, not, ◌==◌, Bool, true, false, [], ◌∷◌, Option, none, some, length}
use keydrop.Base.{if◌then◌else◌, Text, text_eq, text_key, find}
use keydrop.Base.Int.{ℤ, pos, negsuc}
use keydrop.Schema.Values.{FieldValue, type_of, same_type, NamedPayload}

-- The arithmetic of the machine on floats, by bit patterns: `==`, and whether the ratio that
-- `change_ratio` gives is `<=` a threshold. `none` stands for 0.0, else it is a quotient.
pub record Floats : Type 0 where
  pub f32_equal : ℕ → ℕ → Bool
  pub f64_equal : ℕ → ℕ → Bool
  pub at_most : Option (ℕ × ℕ) → ℕ → Bool

unfoldable pub int_eq : ℤ → ℤ → Bool
int_eq (pos a) (pos b) = a == b
int_eq (negsuc a) (negsuc b) = a == b
int_eq _ _ = false

module _ (floats : Floats) where
  -- The test of two values of one type.
  unfoldable pub value_equals : FieldValue → FieldValue → Bool
  unfolding int_eq
  value_equals (FieldValue.u8 a) (FieldValue.u8 b) = a == b
  value_equals (FieldValue.u16 a) (FieldValue.u16 b) = a == b
  value_equals (FieldValue.u32 a) (FieldValue.u32 b) = a == b
  value_equals (FieldValue.i8 a) (FieldValue.i8 b) = int_eq a b
  value_equals (FieldValue.i16 a) (FieldValue.i16 b) = int_eq a b
  value_equals (FieldValue.i32 a) (FieldValue.i32 b) = int_eq a b
  value_equals (FieldValue.f32 a) (FieldValue.f32 b) = floats.f32_equal a b
  value_equals (FieldValue.f64 a) (FieldValue.f64 b) = floats.f64_equal a b
  value_equals (FieldValue.string a) (FieldValue.string b) = text_eq a b
  value_equals (FieldValue.bytes a) (FieldValue.bytes b) = text_eq a b
  value_equals _ _ = false

  -- The loop over the entries of the first payload.
  unfoldable pub entries_equal : NamedPayload → NamedPayload → Bool
  unfolding value_equals
  entries_equal [] b = true
  entries_equal ((name, left) ∷ rest) b =
      let more = entries_equal rest b in
      elim (find name b) [
        | none ↦ false
        | some right ↦
            if not (same_type (type_of right) (type_of left))
            then false
            else if not (value_equals left right)
            then false
            else more
      ]

  unfoldable pub payload_equals : NamedPayload → NamedPayload → Bool
  unfolding entries_equal
  payload_equals a b = if not (length a == length b) then false else entries_equal a b

  unfoldable pub field_changed : NamedPayload → NamedPayload → Text → Bool
  unfolding payload_equals
  field_changed previous current name = elim (find name previous) [
    | none ↦ true
    | some p ↦ elim (find name current) [
      | none ↦ true
      | some c ↦ not (payload_equals ((name, p) ∷ []) ((name, c) ∷ []))
    ]
  ]

  -- The loop over the entries of the current payload, counting those that changed.
  unfoldable pub count_changed : NamedPayload → NamedPayload → NamedPayload → ℕ
  unfolding field_changed
  count_changed previous current [] = 0
  count_changed previous current ((name, value) ∷ rest) =
      (if field_changed previous current name then 1 else 0) + count_changed previous current rest

  unfoldable pub change_ratio : NamedPayload → NamedPayload → Option (ℕ × ℕ)
  unfolding count_changed
  change_ratio previous current =
      if length current == 0
      then none
      else some (count_changed previous current current, length current)
