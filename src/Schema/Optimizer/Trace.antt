-- ===== src/Schema/Optimizer/Trace.antt =====
-- What the loop of `optimize_packet` did, field by field: which fields it omitted, and which bytes
-- it copied.
use keydrop.Base.{ℕ, ◌+◌, ◌/◌, ◌≤◌, ◌<◌, ◌≡◌, ◌⊎◌, inl, inr, refl, sym, ap, ◌∙◌, arith}
use keydrop.Base.{true}
use keydrop.Base.{List, [], ◌∷◌, ◌++◌, none, some, length, take, drop, All, IsByte}
use keydrop.Base.{
  append-nil, append_assoc, is_bit_set, set_bit, set_bit-IsByte, length-set_bit, is_bit_set-set_bit,
}
use mathlib.Core.Path.{subst}
use keydrop.Schema.Types.{FieldType, FieldDef, try_field_type_fixed_size}
use keydrop.Schema.Layout.Fields.{fixed_size-cases}
use keydrop.Schema.Optimizer.{Optimizing, all_zero, total_size, optimize_field, optimize_fields}

-- From the field of index `i` at cursor `c` and with the bitmap `m`, the loop ends with the bitmap
-- `m'`, having copied the bytes `out`, at cursor `e`.
pub data Trace (bytes : List ℕ)
    : List FieldDef → ℕ → ℕ → List ℕ → List ℕ → List ℕ → ℕ → Type 0 where
  done : {i c : ℕ} {m : List ℕ} → Trace bytes [] i c m m [] c
  omitted :
      {f : FieldDef} {fs : List FieldDef} {i c n e : ℕ} {m m' out : List ℕ}
      → try_field_type_fixed_size f.type ≡ some n
      → c + n ≤ length bytes
      → all_zero bytes c n ≡ true
      → Trace bytes fs (i + 1) (c + n) (set_bit m i) m' out e
      → Trace bytes (f ∷ fs) i c m m' out e
  copied :
      {f : FieldDef} {fs : List FieldDef} {i c n e : ℕ} {m m' out : List ℕ}
      → try_field_type_fixed_size f.type ≡ some n
      → c + n ≤ length bytes
      → Trace bytes fs (i + 1) (c + n) m m' out e
      → Trace bytes (f ∷ fs) i c m m' (take n (drop c bytes) ++ out) e
  prefixed :
      {f : FieldDef} {fs : List FieldDef} {i c e : ℕ} {m m' out : List ℕ}
      → try_field_type_fixed_size f.type ≡ none
      → c + total_size f.type bytes c ≤ length bytes
      → Trace bytes fs (i + 1) (c + total_size f.type bytes c) m m' out e
      → Trace bytes (f ∷ fs) i c m m' (take (total_size f.type bytes c) (drop c bytes) ++ out) e

pub total_size-two : (t : FieldType) (bytes : List ℕ) (c : ℕ) → 2 ≤ total_size t bytes c
unfolding total_size
total_size-two t bytes c = ground arith

abbrev omit : Optimizing → ℕ → ℕ → Optimizing
omit s i n = record s { bitmap = set_bit s.bitmap i; cursor = s.cursor + n }

abbrev copy : List ℕ → Optimizing → ℕ → Optimizing
copy bytes s n = record s { body = s.body ++ take n (drop s.cursor bytes); cursor = s.cursor + n }

round-fixed :
    (bytes : List ℕ) (s s' : Optimizing) (i : ℕ) (t : FieldType) (n : ℕ)
    → try_field_type_fixed_size t ≡ some n
    → optimize_field bytes s i t ≡ some s'
    → (s.cursor + n ≤ length bytes)
      × (((all_zero bytes s.cursor n ≡ true) × (omit s i n ≡ s')) ⊎ (copy bytes s n ≡ s'))
unfolding optimize_field
round-fixed bytes s s' i t n e h = ground arith

round-variable :
    (bytes : List ℕ) (s s' : Optimizing) (i : ℕ) (t : FieldType)
    → try_field_type_fixed_size t ≡ none
    → optimize_field bytes s i t ≡ some s'
    → (s.cursor + total_size t bytes s.cursor ≤ length bytes)
      × (copy bytes s (total_size t bytes s.cursor) ≡ s')
unfolding optimize_field
round-variable bytes s s' i t e h = ground arith

step :
    (bytes : List ℕ) (s s' : Optimizing) (i : ℕ) (f : FieldDef) (fs : List FieldDef)
    → optimize_fields bytes s i (f ∷ fs) ≡ some s'
    → (u : Optimizing) × (optimize_field bytes s i f.type ≡ some u)
      × (optimize_fields bytes u (i + 1) fs ≡ some s')
unfolding optimize_fields
step bytes s s' i f fs h = ground arith

-- The loop goes from `s` to `s'`: the body is what the trace copied.
abbrev pub Ends : List ℕ → List FieldDef → ℕ → Optimizing → Optimizing → Type 0
Ends bytes fs i s s' =
    (out : List ℕ) × (s'.body ≡ s.body ++ out)
    × Trace bytes fs i s.cursor s.bitmap s'.bitmap out s'.cursor

module _ (bytes : List ℕ) (f : FieldDef) (fs : List FieldDef) (i : ℕ) (s s' : Optimizing) where
  after_omit :
      (n : ℕ)
      → try_field_type_fixed_size f.type ≡ some n
      → s.cursor + n ≤ length bytes
      → all_zero bytes s.cursor n ≡ true
      → Ends bytes fs (i + 1) (omit s i n) s'
      → Ends bytes (f ∷ fs) i s s'
  after_omit n size fits zeros (out, body, trace) = (out, body, omitted size fits zeros trace)

  after_copy :
      (n : ℕ)
      → try_field_type_fixed_size f.type ≡ some n
      → s.cursor + n ≤ length bytes
      → Ends bytes fs (i + 1) (copy bytes s n) s'
      → Ends bytes (f ∷ fs) i s s'
  after_copy n size fits (out, body, trace) = (
    take n (drop s.cursor bytes) ++ out,
    body ∙ append_assoc s.body _ out,
    copied size fits trace,
  )

  after_prefixed :
      try_field_type_fixed_size f.type ≡ none
      → s.cursor + total_size f.type bytes s.cursor ≤ length bytes
      → Ends bytes fs (i + 1) (copy bytes s (total_size f.type bytes s.cursor)) s'
      → Ends bytes (f ∷ fs) i s s'
  after_prefixed variable fits (out, body, trace) = (
    take (total_size f.type bytes s.cursor) (drop s.cursor bytes) ++ out,
    body ∙ append_assoc s.body _ out,
    prefixed variable fits trace,
  )

-- A run of the loop that succeeds has a trace.
pub optimize_fields-Ends :
    (bytes : List ℕ) (fs : List FieldDef) (s s' : Optimizing) (i : ℕ)
    → optimize_fields bytes s i fs ≡ some s'
    → Ends bytes fs i s s'
optimize_fields-Ends bytes [] s s' i h =
    let same : s ≡ s' = unfold optimize_fields in cc in
    (
      [],
      ap (λ r. r.body) (sym same) ∙ sym (append-nil s.body),
      subst (λ r. Trace bytes [] i s.cursor s.bitmap r.bitmap [] r.cursor) same done,
    )
optimize_fields-Ends bytes (f ∷ fs) s s' i h =
    let (u, one, more) = step bytes s s' i f fs h in
    let rest = optimize_fields-Ends bytes fs u s' (i + 1) more in
    let back =
      λ (v : Optimizing) (e : v ≡ u). subst (λ r. Ends bytes fs (i + 1) r s') (sym e) rest in
    elim (fixed_size-cases f.type) [
      | inl (n, size, _, _) ↦
          let (fits, how) = round-fixed bytes s u i f.type n size one in
          elim how [
            | inl (zeros, same) ↦ after_omit bytes f fs i s s' n size fits zeros (back _ same)
            | inr same ↦ after_copy bytes f fs i s s' n size fits (back _ same)
          ]
      | inr (variable, _) ↦
          let (fits, same) = round-variable bytes s u i f.type variable one in
          after_prefixed bytes f fs i s s' variable fits (back _ same)
    ]

module _ {bytes : List ℕ} where
  -- The loop does not change the size of the bitmap, keeps its entries bytes and the bits below
  -- its index, and ends at or behind its cursor, inside the packet.
  pub Trace-bitmap :
      {fs : List FieldDef} {i c e : ℕ} {m m' out : List ℕ}
      → Trace bytes fs i c m m' out e
      → All IsByte m
      → (i + length fs + 7) / 8 ≤ length m
      → (length m' ≡ length m)
        × All IsByte m'
        × ((j : ℕ) → j < i → is_bit_set m' j ≡ is_bit_set m j)
  Trace-bitmap done h room = (refl, h, λ j lt. refl)
  Trace-bitmap {i = i} {m = m} (omitted size fits zeros t) h room =
      let (same, valid, keep) =
        Trace-bitmap t (set_bit-IsByte m i h) (omega (arith, length-set_bit m i)) in
      (
        same ∙ length-set_bit m i,
        valid,
        λ j lt. keep j (omega arith) ∙ is_bit_set-set_bit m i j h (omega arith) ∙ ground arith,
      )
  Trace-bitmap (copied size fits t) h room =
      let (same, valid, keep) = Trace-bitmap t h (omega arith) in
      (same, valid, λ j lt. keep j (omega arith))
  Trace-bitmap (prefixed size fits t) h room =
      let (same, valid, keep) = Trace-bitmap t h (omega arith) in
      (same, valid, λ j lt. keep j (omega arith))
