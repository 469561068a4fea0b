-- ===== src/Reliability/Keydrop/Conforms.antt =====
-- The packets of a schema, described without a cursor: `check_fields` accepts exactly those.
use keydrop.Base.{ℕ, ◌+◌, ◌^◌, ◌≤◌, ◌<◌, ◌≡◌, refl, sym, ap, ◌∙◌, ◌↔◌, ◌⊎◌, inl, inr, arith}
use keydrop.Base.{
  true, false, ◌&&◌, List, [], ◌∷◌, ◌++◌, length, take, drop, All, IsByte, ltb, ◌==◌, le_bytes,
}
use keydrop.Base.{
  length-append, length-take, length-drop, length-le_bytes, take-append-drop, nil_of_length,
  take-add, drop-drop, drop-append, append_assoc,
}
use keydrop.Base.{read_u16_le, read_u16_le-take, read_u16_le-le_bytes}
use mathlib.Core.Path.{subst}
use keydrop.Schema.Types.{is_string}
use keydrop.Schema.Layout.{FieldLayout}
use keydrop.Reliability.Check.{CorruptionCheckResult}
use keydrop.Reliability.Keydrop.{Walk, moved, failed, check_field, check_fields}

-- The bytes of one field: the fixed size, or a reference to the dictionary, or a size of 16 bits
-- and the content, within the limit of the schema.
pub data FieldBytes (f : FieldLayout) : List ℕ → Type 0 where
  fixed : {seg : List ℕ} → f.variable_length ≡ false → length seg ≡ f.fixed_size → FieldBytes f seg
  reference :
      {seg : List ℕ} (id : List ℕ)
      → f.variable_length ≡ true
      → is_string f.type ≡ true
      → length id ≡ 2
      → seg ≡ le_bytes 2 0xFFFF ++ id
      → FieldBytes f seg
  literal :
      {seg : List ℕ} (content : List ℕ)
      → f.variable_length ≡ true
      → length content < 2 ^ 16
      → (is_string f.type && length content == 0xFFFF) ≡ false
      → (f.has_max_length && ltb f.max_length (length content)) ≡ false
      → seg ≡ le_bytes 2 (length content) ++ content
      → FieldBytes f seg

-- The bytes of the fields in order, and nothing behind them.
abbrev pub Conforms : List FieldLayout → List ℕ → Type 0
Conforms [] bytes = bytes ≡ []
Conforms (f ∷ fs) bytes =
    (seg : List ℕ) × (tail : List ℕ) × (bytes ≡ seg ++ tail) × FieldBytes f seg × Conforms fs tail

module _ (p : List ℕ) (c : ℕ) (inside : c ≤ length p) where
  pub length_reached : (seg tail : List ℕ) → drop c p ≡ seg ++ tail → c + length seg ≤ length p
  length_reached seg tail e = omega (arith, ap length e, length-append seg tail, length-drop c p)

  pub declared :
      (k : ℕ) (content seg tail : List ℕ)
      → k < 2 ^ 16
      → drop c p ≡ seg ++ tail
      → seg ≡ le_bytes 2 k ++ content
      → (read_u16_le p c ≡ k) × (length seg ≡ 2 + length content)
  declared k content seg tail h e s = (
    read_u16_le-le_bytes p (content ++ tail) c k h
        (e ∙ ap (λ l. l ++ tail) s ∙ append_assoc (le_bytes 2 k) content tail),
    omega (arith, ap length s, length-append (le_bytes 2 k) content, length-le_bytes 2 k),
  )

module _ (p : List ℕ) (c : ℕ) (f : FieldLayout) (bytes : All IsByte p) (inside : c ≤ length p) where
  -- A field that the walk passes has its bytes at the cursor.
  abbrev Passed : ℕ → Type 0
  Passed c' = (n : ℕ) × (c' ≡ c + n) × (c + n ≤ length p) × FieldBytes f (take n (drop c p))

  seg_length : (n : ℕ) → c + n ≤ length p → length (take n (drop c p)) ≡ n
  seg_length n h = omega (arith, length-take n (drop c p), length-drop c p)

  prefixed :
      (n : ℕ)
      → c + 2 + n ≤ length p
      → take (2 + n) (drop c p) ≡ le_bytes 2 (read_u16_le p c) ++ take n (drop (c + 2) p)
  prefixed n h =
      take-add 2 n (drop c p)
      ∙ ap (λ l. l ++ take n (drop 2 (drop c p))) (read_u16_le-take p c bytes (omega arith)).0
      ∙ ap (λ l. le_bytes 2 (read_u16_le p c) ++ take n l) (drop-drop 2 c p)

  content_length : (n : ℕ) → c + 2 + n ≤ length p → length (take n (drop (c + 2) p)) ≡ n
  content_length n h = omega (arith, length-take n (drop (c + 2) p), length-drop (c + 2) p)

  check_field-cases :
      (c' : ℕ)
      → check_field p c f ≡ moved c'
      → ((f.variable_length ≡ false) × (c' ≡ c + f.fixed_size) × (c + f.fixed_size ≤ length p))
        ⊎ ((f.variable_length ≡ true)
            × (is_string f.type ≡ true)
            × (read_u16_le p c ≡ 0xFFFF)
            × (c' ≡ c + 4)
            × (c + 4 ≤ length p))
        ⊎ ((f.variable_length ≡ true)
            × ((is_string f.type && read_u16_le p c == 0xFFFF) ≡ false)
            × ((f.has_max_length && ltb f.max_length (read_u16_le p c)) ≡ false)
            × (c' ≡ c + (2 + read_u16_le p c))
            × (c + 2 + read_u16_le p c ≤ length p))
  unfolding check_field
  check_field-cases c' h = ground arith

  check_field-Passed : (c' : ℕ) → check_field p c f ≡ moved c' → Passed c'
  check_field-Passed c' h = elim (check_field-cases c' h) [
    | inl (var, e, fits) ↦ (f.fixed_size, e, fits, fixed var (seg_length f.fixed_size fits))
    | inr (inl (var, str, marker, e, fits)) ↦ (
      4,
      e,
      fits,
      reference (take 2 (drop (c + 2) p)) var str (content_length 2 (omega arith))
          (prefixed 2 (omega arith) ∙ ap (λ k. le_bytes 2 k ++ take 2 (drop (c + 2) p)) marker),
    )
    | inr (inr (var, plain, limit, e, fits)) ↦
        let k = read_u16_le p c in
        let s = take k (drop (c + 2) p) in
        let len : length s ≡ k = content_length k (omega arith) in
        (
          2 + k,
          e,
          omega arith,
          literal s var (omega (arith, (read_u16_le-take p c bytes (omega arith)).1)) (rw len plain)
              (rw len limit) (prefixed k (omega arith) ∙ ap (λ j. le_bytes 2 j ++ s) (sym len)),
        )
  ]

  -- Where the bytes of the field stand at the cursor, the walk passes them.
  FieldBytes-check_field :
      (seg tail : List ℕ)
      → drop c p ≡ seg ++ tail
      → FieldBytes f seg
      → check_field p c f ≡ moved (c + length seg)
  unfolding check_field
  FieldBytes-check_field seg tail e (fixed var size) =
      ground (arith, length_reached p c inside seg tail e)
  FieldBytes-check_field seg tail e (reference id var str two s) = ground (
    arith,
    length_reached p c inside seg tail e,
    declared p c inside 0xFFFF id seg tail (omega arith) e s,
  )
  FieldBytes-check_field seg tail e (literal content var small plain limit s) = ground (
    arith,
    length_reached p c inside seg tail e,
    declared p c inside (length content) content seg tail small e s,
  )

Walk-cases : (w : Walk) → ((c : ℕ) × (w ≡ moved c)) ⊎ ((r : CorruptionCheckResult) × (w ≡ failed r))
Walk-cases (moved c) = inl (c, refl)
Walk-cases (failed r) = inr (r, refl)

check_field-failed :
    (p : List ℕ) (c : ℕ) (f : FieldLayout) (r : CorruptionCheckResult)
    → check_field p c f ≡ failed r
    → r.ok ≡ false
unfolding check_field
check_field-failed p c f r h = ground arith

module _ (p : List ℕ) (c : ℕ) (f : FieldLayout) (fs : List FieldLayout) where
  check_fields-moved :
      (c' : ℕ) → check_field p c f ≡ moved c' → check_fields p c (f ∷ fs) ≡ check_fields p c' fs
  unfolding check_fields
  check_fields-moved c' e = rw (e, check_fields)

  check_fields-failed :
      (r : CorruptionCheckResult) → check_field p c f ≡ failed r → check_fields p c (f ∷ fs) ≡ r
  unfolding check_fields
  check_fields-failed r e = rw (e, check_fields)

  check_step :
      (check_fields p c (f ∷ fs)).ok ≡ true
      → (c' : ℕ) × (check_field p c f ≡ moved c') × ((check_fields p c' fs).ok ≡ true)
  check_step h = elim (Walk-cases (check_field p c f)) [
    | inl (c', e) ↦ (c', e, ap (λ r. r.ok) (sym (check_fields-moved c' e)) ∙ h)
    | inr (r, e) ↦ cc (check_field-failed p c f r e, ap (λ r. r.ok) (check_fields-failed r e))
  ]

drop_end : (p : List ℕ) (c : ℕ) → c ≤ length p → (c ≡ length p) ↔ (drop c p ≡ [])
drop_end p c h = (
  λ e. nil_of_length (drop c p) (omega (arith, length-drop c p)),
  λ e. omega (arith, ap length e, length-drop c p),
)

check_fields-Conforms :
    (fs : List FieldLayout) (p : List ℕ) (c : ℕ)
    → All IsByte p
    → c ≤ length p
    → (check_fields p c fs).ok ≡ true
    → Conforms fs (drop c p)
check_fields-Conforms [] p c bytes inside h =
    (drop_end p c inside).0 (unfold check_fields in ground arith)
check_fields-Conforms (f ∷ fs) p c bytes inside h =
    let (c', step, more) = check_step p c f fs h in
    let (n, e, fits, field) = check_field-Passed p c f bytes inside c' step in
    let rest =
      check_fields-Conforms fs p (c + n) bytes fits
        (ap (λ k. (check_fields p k fs).ok) (sym e) ∙ more) in
    (
      take n (drop c p),
      drop (c + n) p,
      sym (take-append-drop n (drop c p)) ∙ ap (λ l. take n (drop c p) ++ l) (drop-drop n c p),
      field,
      rest,
    )

Conforms-check_fields :
    (fs : List FieldLayout) (p : List ℕ) (c : ℕ)
    → All IsByte p
    → c ≤ length p
    → Conforms fs (drop c p)
    → (check_fields p c fs).ok ≡ true
Conforms-check_fields [] p c bytes inside h =
    let e = (drop_end p c inside).1 h in unfold check_fields in ground arith
Conforms-check_fields (f ∷ fs) p c bytes inside (seg, tail, e, field, rest) =
    let step = FieldBytes-check_field p c f bytes inside seg tail e field in
    let next : drop (c + length seg) p ≡ tail =
      sym (drop-drop (length seg) c p)
      ∙ ap (drop (length seg)) e
      ∙ drop-append seg tail (length seg) refl in
    ap (λ r. r.ok) (check_fields-moved p c f fs (c + length seg) step)
    ∙ Conforms-check_fields fs p (c + length seg) bytes (length_reached p c inside seg tail e)
        (subst (Conforms fs) (sym next) rest)

-- The walk from a cursor accepts exactly the bytes that conform to the fields.
pub check_fields_iff :
    (fs : List FieldLayout) (p : List ℕ) (c : ℕ)
    → All IsByte p
    → c ≤ length p
    → ((check_fields p c fs).ok ≡ true) ↔ Conforms fs (drop c p)
check_fields_iff fs p c bytes inside =
    (check_fields-Conforms fs p c bytes inside, Conforms-check_fields fs p c bytes inside)
