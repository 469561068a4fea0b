-- ===== src/Schema/Stream/Frames/Current.antt =====
-- What a delta packet brings of the current payload, said without the code that compares payloads.
use keydrop.Base.{
  ==_iff, ◌≡◌, ◌⊎◌, inl, inr, ap, ◌∙◌, arith, true, false, Bool-cases, List, [], ◌∷◌, All, some,
  find, Text, text_key, text_eq_iff, if◌then◌else◌,
}
use mathlib.Core.Path.{subst}
use keydrop.Base.Int.{ℤ, pos, negsuc}
use keydrop.Schema.Types.{FieldDef}
use keydrop.Schema.Values.{FieldValue, NamedPayload, OrderedPayload}
use keydrop.Schema.Stream.Changes.{
  Floats, int_eq, value_equals, entries_equal, payload_equals, field_changed,
}
use keydrop.Schema.Stream.Frames.Fields.{HasField, Chosen}

int_eq-true : (a b : ℤ) → int_eq a b ≡ true → a ≡ b
unfolding int_eq
int_eq-true (pos a) (pos b) h = ap pos ((==_iff a b).0 h)
int_eq-true (negsuc a) (negsuc b) h = ap negsuc ((==_iff a b).0 h)
int_eq-true (pos a) (negsuc b) h = absurd (ground (arith, h))
int_eq-true (negsuc a) (pos b) h = absurd (ground (arith, h))

module _ (floats : Floats) where
  -- The values are the same, or floats of one width that the machine finds equal.
  abbrev pub Same : FieldValue → FieldValue → Type 0
  Same (FieldValue.f32 a) (FieldValue.f32 b) = floats.f32_equal a b ≡ true
  Same (FieldValue.f64 a) (FieldValue.f64 b) = floats.f64_equal a b ≡ true
  Same v w = v ≡ w

  -- The value of the field in the current payload; or that in the previous one, if it is the same.
  abbrev pub Current : NamedPayload → NamedPayload → FieldDef → FieldValue → Type 0
  Current previous current f v =
      (find f.name current ≡ some v)
      ⊎ ((c : FieldValue) × (find f.name previous ≡ some v)
          × (find f.name current ≡ some c)
          × Same v c)

  -- One such value for each field, which a payload has under the name of the field.
  abbrev pub AllCurrent :
      NamedPayload → NamedPayload → NamedPayload → List FieldDef → OrderedPayload → Type 0
  AllCurrent previous current merged [] [] = Unit {0}
  AllCurrent previous current merged (f ∷ fs) (v ∷ vs) =
      (find f.name merged ≡ some v)
      × Current previous current f v
      × AllCurrent previous current merged fs vs
  AllCurrent previous current merged _ _ = ⊥

  value_equals-Same : (v w : FieldValue) → value_equals floats v w ≡ true → Same v w
  unfolding value_equals
  value_equals-Same (FieldValue.u8 a) (FieldValue.u8 b) h = ap FieldValue.u8 ((==_iff a b).0 h)
  value_equals-Same (FieldValue.u8 a) _ h = absurd (ground (arith, h))
  value_equals-Same (FieldValue.u16 a) (FieldValue.u16 b) h = ap FieldValue.u16 ((==_iff a b).0 h)
  value_equals-Same (FieldValue.u16 a) _ h = absurd (ground (arith, h))
  value_equals-Same (FieldValue.u32 a) (FieldValue.u32 b) h = ap FieldValue.u32 ((==_iff a b).0 h)
  value_equals-Same (FieldValue.u32 a) _ h = absurd (ground (arith, h))
  value_equals-Same (FieldValue.i8 a) (FieldValue.i8 b) h = ap FieldValue.i8 (int_eq-true a b h)
  value_equals-Same (FieldValue.i8 a) _ h = absurd (ground (arith, h))
  value_equals-Same (FieldValue.i16 a) (FieldValue.i16 b) h = ap FieldValue.i16 (int_eq-true a b h)
  value_equals-Same (FieldValue.i16 a) _ h = absurd (ground (arith, h))
  value_equals-Same (FieldValue.i32 a) (FieldValue.i32 b) h = ap FieldValue.i32 (int_eq-true a b h)
  value_equals-Same (FieldValue.i32 a) _ h = absurd (ground (arith, h))
  value_equals-Same (FieldValue.f32 a) (FieldValue.f32 b) h = h
  value_equals-Same (FieldValue.f32 a) _ h = absurd (ground (arith, h))
  value_equals-Same (FieldValue.f64 a) (FieldValue.f64 b) h = h
  value_equals-Same (FieldValue.f64 a) _ h = absurd (ground (arith, h))
  value_equals-Same (FieldValue.string a) (FieldValue.string b) h =
      ap FieldValue.string ((text_eq_iff a b).0 h)
  value_equals-Same (FieldValue.string a) _ h = absurd (ground (arith, h))
  value_equals-Same (FieldValue.bytes a) (FieldValue.bytes b) h =
      ap FieldValue.bytes ((text_eq_iff a b).0 h)
  value_equals-Same (FieldValue.bytes a) _ h = absurd (ground (arith, h))

  -- A field that both payloads have and that is not found to have changed has the same value.
  field_changed-Same :
      (previous current : NamedPayload) (name : Text) (p c : FieldValue)
      → find name previous ≡ some p
      → find name current ≡ some c
      → field_changed floats previous current name ≡ false
      → Same p c
  unfolding field_changed payload_equals entries_equal find
  field_changed-Same previous current name p c ep ec h =
      let equal : value_equals floats p c ≡ true =
        ground (arith, ep, ec, h, text_eq_iff name name) in
      value_equals-Same p c equal

  pub Chosen-AllCurrent :
      (previous current merged : NamedPayload) (fs : List FieldDef) (vs : OrderedPayload)
      → All (HasField previous current) fs
      → Chosen (field_changed floats previous current) previous current fs vs
      → All
          (λ f.
            find f.name merged
            ≡ find f.name
                (if field_changed floats previous current f.name then current else previous))
          fs
      → AllCurrent previous current merged fs vs
  Chosen-AllCurrent previous current merged [] [] has chosen settled = tt
  Chosen-AllCurrent previous current merged [] (v ∷ vs) has chosen settled = elim chosen [ ]
  Chosen-AllCurrent previous current merged (f ∷ fs) [] has chosen settled = elim chosen [ ]
  Chosen-AllCurrent previous current merged (f ∷ fs) (v ∷ vs) (one, has) (this, chosen)
        (put, settled) =
      let (p, c, ep, ec, tp, tc, vp, vc) = one in
      (
        put ∙ this,
        elim (Bool-cases (field_changed floats previous current f.name)) [
          | inl changed ↦ inl (rw changed at this)
          | inr same ↦
              let kept : find f.name previous ≡ some v = rw same at this in
              let e : p ≡ v = cc in
              inr (
                c,
                kept,
                ec,
                subst (λ x. Same x c) e (field_changed-Same previous current f.name p c ep ec same),
              )
        ],
        Chosen-AllCurrent previous current merged fs vs has chosen settled,
      )
