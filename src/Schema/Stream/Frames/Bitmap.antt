-- ===== src/Schema/Stream/Frames/Bitmap.antt =====
-- The bitmap of a delta packet marks the fields that changed.
use keydrop.Base.{
  ℕ, ◌+◌, ◌*◌, ◌/◌, ◌≤◌, ◌<◌, ◌≡◌, refl, ◌∙◌, inl, inr, arith, Bool, false, ◌||◌, ◌&&◌, ◌==◌,
  Bool-cases,
}
use keydrop.Base.{List, [], ◌∷◌, ◌++◌, length, All, if◌then◌else◌, Text, text_key}
use keydrop.Base.{
  is_bit_set, set_bit, IsByte, set_bit-IsByte, length-set_bit, is_bit_set-set_bit, get_or-append,
}
use keydrop.Schema.Types.{FieldDef}
use keydrop.Schema.Values.{NamedPayload}
use keydrop.Schema.Stream.Changes.{Floats, field_changed}
use keydrop.Schema.Stream.Frames.{mark_changed}
use keydrop.Schema.Stream.Frames.Fields.{Marked}

module _ (floats : Floats) (previous current : NamedPayload) where
  abbrev pub test : Text → Bool
  test name = field_changed floats previous current name

  abbrev marked_once : List ℕ → ℕ → FieldDef → List ℕ
  marked_once bitmap i f = if test f.name then set_bit bitmap i else bitmap

  -- One round of the loop sets the bit of the field, where it changed, and no other.
  marked_once-bit :
      (bitmap : List ℕ) (i j : ℕ) (f : FieldDef)
      → All IsByte bitmap
      → i / 8 < length bitmap
      → is_bit_set (marked_once bitmap i f) j ≡ is_bit_set bitmap j || (test f.name && i == j)
  marked_once-bit bitmap i j f bytes inside = elim (Bool-cases (test f.name)) [
    | inl changed ↦ rw changed (is_bit_set-set_bit bitmap i j bytes inside)
    | inr same ↦ rw same (ground arith)
  ]

  marked_once-IsByte :
      (bitmap : List ℕ) (i : ℕ) (f : FieldDef)
      → All IsByte bitmap
      → All IsByte (marked_once bitmap i f) × (length (marked_once bitmap i f) ≡ length bitmap)
  marked_once-IsByte bitmap i f bytes = elim (Bool-cases (test f.name)) [
    | inl changed ↦ rw changed (set_bit-IsByte bitmap i bytes, length-set_bit bitmap i)
    | inr same ↦ rw same (bytes, refl)
  ]

  pub length-mark_changed :
      (fs : List FieldDef) (bitmap : List ℕ) (i : ℕ)
      → All IsByte bitmap
      → length (mark_changed floats previous current bitmap i fs) ≡ length bitmap
  unfolding mark_changed
  length-mark_changed [] bitmap i bytes = refl
  length-mark_changed (f ∷ fs) bitmap i bytes =
      let (bytes', size) = marked_once-IsByte bitmap i f bytes in
      length-mark_changed fs (marked_once bitmap i f) (i + 1) bytes' ∙ size

  -- The loop leaves the bits of the fields before.
  mark_changed-before :
      (fs : List FieldDef) (bitmap : List ℕ) (i j : ℕ)
      → All IsByte bitmap
      → i + length fs ≤ 8 * length bitmap
      → j < i
      → is_bit_set (mark_changed floats previous current bitmap i fs) j ≡ is_bit_set bitmap j
  unfolding mark_changed
  mark_changed-before [] bitmap i j bytes room before = refl
  mark_changed-before (f ∷ fs) bitmap i j bytes room before =
      let (bytes', size) = marked_once-IsByte bitmap i f bytes in
      let bit = marked_once-bit bitmap i j f bytes (omega arith) in
      mark_changed-before fs (marked_once bitmap i f) (i + 1) j bytes' (omega (arith, size))
        (omega arith)
      ∙ bit
      ∙ ground arith

  pub mark_changed-Marked :
      (fs : List FieldDef) (bitmap : List ℕ) (i : ℕ)
      → All IsByte bitmap
      → i + length fs ≤ 8 * length bitmap
      → ((j : ℕ) → i ≤ j → is_bit_set bitmap j ≡ false)
      → Marked test (mark_changed floats previous current bitmap i fs) i fs
  unfolding mark_changed
  mark_changed-Marked [] bitmap i bytes room clear = tt
  mark_changed-Marked (f ∷ fs) bitmap i bytes room clear =
      let (bytes', size) = marked_once-IsByte bitmap i f bytes in
      let inside : i / 8 < length bitmap = omega arith in
      let bit = marked_once-bit bitmap i i f bytes inside in
      (
        mark_changed-before fs (marked_once bitmap i f) (i + 1) i bytes' (omega (arith, size))
              (omega arith)
            ∙ bit
            ∙ ground (arith, clear i (omega arith)),
        mark_changed-Marked fs (marked_once bitmap i f) (i + 1) bytes' (omega (arith, size))
            (λ j after.
              marked_once-bit bitmap i j f bytes inside ∙ ground (arith, clear j (omega arith))),
      )

-- What follows the bitmap does not matter to its bits.
pub Marked-append :
    (test : Text → Bool) (fs : List FieldDef) (bitmap rest : List ℕ) (i : ℕ)
    → i + length fs ≤ 8 * length bitmap
    → Marked test bitmap i fs
    → Marked test (bitmap ++ rest) i fs
unfolding is_bit_set
Marked-append test [] bitmap rest i room m = tt
Marked-append test (f ∷ fs) bitmap rest i room (bit, m) = (
  rw (get_or-append bitmap rest (i / 8) (omega arith)) bit,
  Marked-append test fs bitmap rest (i + 1) (omega arith) m,
)
