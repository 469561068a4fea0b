-- ===== src/Schema/Stream/Frames/Fields.antt =====
-- The fields of a delta packet are read back as the values that changed.
use keydrop.Base.{
  ℕ, ◌+◌, ◌%◌, ◌^◌, ◌<◌, ◌≡◌, refl, sym, ap, ◌∙◌, ◌⊎◌, inl, inr, arith, Bool, true, false,
  Bool-cases,
}
use keydrop.Base.{
  List, [], ◌∷◌, ◌++◌, Option, none, some, length, le_bytes, All, append_assoc, append-nil, ok,
  if◌then◌else◌, is_bit_set, drop, find, assign, find-assign, Text, text_key, text_eq_iff,
}
use mathlib.Core.Path.{subst}
use keydrop.Core.Endian.{Host, little}
use keydrop.Core.Encoder.{Encoder}
use keydrop.Core.Reader
use keydrop.Core.Reader.{M, PacketReader, ◌>>=◌, return}
use keydrop.Core.Packet.Read.{
  At, Reads, >>=-ok, map-Reads, read_u16-Reads, read_string-Reads, next-Reads,
}
use keydrop.Core.Packet.Write.{content}
use keydrop.Schema.Types.{FieldDef, is_variable_length, is_string, is_bytes}
use keydrop.Schema.Values.{FieldValue, type_of, NamedPayload, OrderedPayload, write_value}
use keydrop.Schema.Values.Wire.{Valid, value_wire, values_wire, write_value-wire}
use keydrop.Schema.Stream.Delta.{write_numeric_delta}
use keydrop.Schema.Stream.Delta.Numeric.{IsNumeric, read_numeric_delta-write_numeric_delta}
use keydrop.Schema.Stream.Frames.{
  write_delta_field, read_delta_field, delta_fields, expand_field, expand_fields, lifted,
}

fixed-IsNumeric : (v : FieldValue) → is_variable_length (type_of v) ≡ false → IsNumeric v
unfolding is_variable_length is_string is_bytes type_of
fixed-IsNumeric v h = ground arith

-- The size in front of a sequence, and the sequence.
front_shape :
    (s rest : List ℕ)
    → length s < 2 ^ 16
    → (le_bytes 2 (length s % 2 ^ 16) ++ s) ++ rest ≡ le_bytes 2 (length s) ++ (s ++ rest)
front_shape s rest h =
    let fits : length s % 2 ^ 16 ≡ length s = omega arith in
    ap (λ n. (le_bytes 2 n ++ s) ++ rest) fits ∙ append_assoc (le_bytes 2 (length s)) s rest

module _ (host : Host) (order : host.order ≡ little) where
  read_delta_field-Reads :
      (c : FieldValue) (rest : List ℕ) (r : PacketReader)
      → is_variable_length (type_of c) ≡ true
      → Valid c
      → At r (write_delta_field c ++ rest)
      → Reads (read_delta_field host (type_of c)) r (some c) rest
  unfolding read_delta_field write_delta_field type_of is_variable_length is_string is_bytes
      Reader.read_bytes
  read_delta_field-Reads (FieldValue.string s) rest r v (h, b) at =
      map-Reads (Reader.read_string host) _ r s _ rest refl
        (read_string-Reads host order s rest r h (subst (At r) (front_shape s rest h) at))
  read_delta_field-Reads (FieldValue.bytes s) rest r v (h, b) at =
      let (r', e, left, same) =
        read_u16-Reads (s ++ rest) r host order (length s) h
          (subst (At r) (front_shape s rest h) at) in
      let (r'', e', left', same') =
        map-Reads (Reader.next (length s)) (λ t. some (FieldValue.bytes t)) r' s _ rest refl
          (next-Reads s rest r' (length s) refl left) in
      let sized : ℕ → M (Option FieldValue) =
        λ n. Reader.read_bytes n >>= λ t. return (some (FieldValue.bytes t)) in
      (r'', >>=-ok (Reader.read_u16 host) sized e ∙ e', left', same' ∙ same)
  read_delta_field-Reads c rest r v h at = absurd (ground arith)

  -- The field that is marked is read as the current value.
  changed-Reads :
      (f : FieldDef) (p c : FieldValue) (rest : List ℕ) (r : PacketReader)
      → type_of p ≡ f.type
      → type_of c ≡ f.type
      → Valid c
      → At r (
          (if is_variable_length f.type then write_delta_field c else write_numeric_delta p c)
          ++ rest)
      → Reads (expand_field host true f p) r (some c) rest
  unfolding expand_field
  changed-Reads f p c rest r tp tc v at = elim (Bool-cases (is_variable_length f.type)) [
    | inl is_variable ↦
        let variable : is_variable_length (type_of c) ≡ true =
          ap is_variable_length tc ∙ is_variable in
        let (r', e, left, same) =
          read_delta_field-Reads c rest r variable v (rw is_variable at at) in
        (
          r',
          rw is_variable (subst (λ t. read_delta_field host t r ≡ (ok (some c), r')) tc e),
          left,
          same,
        )
    | inr fixed ↦
        let number = fixed-IsNumeric c (ap is_variable_length tc ∙ fixed) in
        let (r', e, left, same) =
          read_numeric_delta-write_numeric_delta host order p c rest r (tp ∙ sym tc) number v
            (rw fixed at at) in
        (r', rw fixed e, left, same)
  ]

-- What the payloads have for a field.
abbrev pub HasField : NamedPayload → NamedPayload → FieldDef → Type 0
HasField previous current f =
    (p : FieldValue) × (c : FieldValue) × (find f.name previous ≡ some p)
    × (find f.name current ≡ some c)
    × (type_of p ≡ f.type)
    × (type_of c ≡ f.type)
    × Valid p
    × Valid c

-- From bit `i` on the bitmap marks the fields that a test of names tells.
abbrev pub Marked : (Text → Bool) → List ℕ → ℕ → List FieldDef → Type 0
Marked test bitmap i [] = Unit {0}
Marked test bitmap i (f ∷ fs) = (is_bit_set bitmap i ≡ test f.name) × Marked test bitmap (i + 1) fs

-- The values of the fields: of the current payload where the test holds, else of the previous one.
abbrev pub Chosen :
    (Text → Bool) → NamedPayload → NamedPayload → List FieldDef → OrderedPayload → Type 0
Chosen test previous current [] [] = Unit {0}
Chosen test previous current (f ∷ fs) (v ∷ vs) =
    (find f.name (if test f.name then current else previous) ≡ some v)
    × Chosen test previous current fs vs
Chosen test previous current _ _ = ⊥

-- Where the values of the fields that the test tells replace those of a payload.
abbrev pub Settles : (Text → Bool) → NamedPayload → NamedPayload → NamedPayload → Type 0
Settles test current before after =
    (name : Text)
    → (find name after ≡ find name before)
      ⊎ ((test name ≡ true) × (find name after ≡ find name current))

module _ (test : Text → Bool) (current : NamedPayload) (name : Text) (c : FieldValue)
    (merged after : NamedPayload) where
  -- The value of a field that the test tells is put into the payload.
  assigned-Settles :
      test name ≡ true
      → find name current ≡ some c
      → Settles test current (assign name c merged) after
      → Settles test current merged after
  assigned-Settles told found settles n =
      ground (arith, settles n, find-assign name n c merged, text_eq_iff name n, told, found)

  found_after :
      find name current ≡ some c
      → Settles test current (assign name c merged) after
      → find name after ≡ find name current
  found_after found settles =
      ground (arith, settles name, find-assign name name c merged, text_eq_iff name name, found)

module _ (host : Host) (order : host.order ≡ little) (test : Text → Bool)
    (previous current : NamedPayload) where
  -- What the loop does from field `i` on, in the order of the fields.
  abbrev pub Expands : ℕ → List FieldDef → List ℕ → Type 0
  Expands i fs out =
      (bytes : List ℕ)
      → Marked test (drop 6 bytes) i fs
      → (merged : NamedPayload) (e : Encoder) (rest : List ℕ) (r : PacketReader)
      → At r (out ++ rest)
      → (vs : OrderedPayload) × (after : NamedPayload) × (e' : Encoder) × Reads
          (expand_fields host bytes previous i fs merged e) r (some (after, e')) rest
        × (content e' ≡ content e ++ values_wire vs)
        × Chosen test previous current fs vs
        × Settles test current merged after
        × All (λ f. test f.name ≡ true → find f.name after ≡ find f.name current) fs

  module _ (bytes : List ℕ) (f : FieldDef) (fs : List FieldDef) (i : ℕ) (merged : NamedPayload)
      (e : Encoder) where
    -- What follows a field that is read, `next` being the loop from the next field on.
    abbrev continued :
        Bool
        → (NamedPayload → Encoder → M (Option (NamedPayload × Encoder)))
        → Option FieldValue
        → M (Option (NamedPayload × Encoder))
    continued changed next value = elim value [
      | none ↦ return none
      | some v ↦ lifted (write_value host e v) >>= λ e'.
          next (if changed then assign f.name v merged else merged) e'
    ]

    -- One round: the value is read and written, and the rest of the loop runs.
    round-Reads :
        (changed : Bool) (p v : FieldValue) (e' : Encoder) (mid rest : List ℕ) (r : PacketReader)
        (result : NamedPayload × Encoder)
        → is_bit_set (drop 6 bytes) i ≡ changed
        → find f.name previous ≡ some p
        → write_value host e v ≡ ok e'
        → (given : Reads (expand_field host changed f p) r (some v) mid)
        → Reads
            (expand_fields host bytes previous
              (i + 1)
              fs
              (if changed then assign f.name v merged else merged)
              e')
            given.0
            (some result)
            rest
        → Reads (expand_fields host bytes previous i (f ∷ fs) merged e) r (some result) rest
    unfolding expand_fields
    round-Reads changed p v e' mid rest r result bit found written (r', given, at, same) next =
        let loop = expand_fields host bytes previous (i + 1) fs in
        let (r'', rest_run, left, same') = next in
        let round : Bool → Option FieldValue → M (Option (NamedPayload × Encoder)) = λ b o. elim o [
          | none ↦ return none
          | some last ↦ expand_field host b f last >>= continued b loop
        ] in
        let start : expand_fields host bytes previous i (f ∷ fs) merged e r
            ≡ round changed (some p) r =
          ap (λ b. round b (find f.name previous) r) bit ∙ ap (λ o. round changed o r) found in
        (
          r'',
          start
              ∙ >>=-ok (expand_field host changed f p) (continued changed loop) given
              ∙ >>=-ok (lifted (write_value host e v))
                  (loop (if changed then assign f.name v merged else merged))
                  (ap (λ w. (w, r')) written)
              ∙ rest_run,
          left,
          same' ∙ same,
        )

  pub expand_fields-delta_fields :
      (bitmap : List ℕ) (fs : List FieldDef) (i : ℕ)
      → All (HasField previous current) fs
      → Marked test bitmap i fs
      → (out : List ℕ) × (delta_fields bitmap previous current i fs ≡ some out) × Expands i fs out
  unfolding delta_fields expand_fields values_wire
  expand_fields-delta_fields bitmap [] i h m = (
    [],
    refl,
    λ bytes m' merged e rest r at.
        ([], merged, e, (r, refl, at, refl), sym (append-nil (content e)), tt, (λ n. inl refl), tt),
  )
  expand_fields-delta_fields bitmap (f ∷ fs) i (has, h) (bit, m) =
      let (back, built, run) = expand_fields-delta_fields bitmap fs (i + 1) h m in
      let (p, c, in_p, in_c, tp, tc, vp, vc) = has in
      elim (Bool-cases (test f.name)) [
        | inl yes_ ↦ (
          (if is_variable_length f.type then write_delta_field c else write_numeric_delta p c)
              ++ back,
          rw (bit, yes_, in_p, in_c, built) refl,
          λ bytes (bit', m') merged e rest r at.
              let given =
                changed-Reads host order f p c (back ++ rest) r tp tc vc
                  (subst (At r) (append_assoc _ back rest) at) in
              let (e', written, bytes_e) = write_value-wire host e c vc in
              let (vs, after, e'', reads, bytes_more, chosen, settles, each) =
                run bytes m' (assign f.name c merged) e' rest given.0 given.2 in
              (
                c ∷ vs,
                after,
                e'',
                round-Reads bytes f fs i merged e true p c e' (back ++ rest) rest r (after, e'')
                    (bit' ∙ yes_) in_p written given reads,
                bytes_more
                    ∙ ap (λ l. l ++ values_wire vs) bytes_e
                    ∙ append_assoc (content e) (value_wire c) (values_wire vs),
                (rw yes_ in_c, chosen),
                assigned-Settles test current f.name c merged after yes_ in_c settles,
                ((λ t. found_after test current f.name c merged after in_c settles), each),
              ),
        )
        | inr no_ ↦ (
          back,
          rw (bit, no_) built,
          λ bytes (bit', m') merged e rest r at.
              let given : Reads (expand_field host false f p) r (some p) (back ++ rest) =
                (r, unfold expand_field in refl, at, refl) in
              let (e', written, bytes_e) = write_value-wire host e p vp in
              let (vs, after, e'', reads, bytes_more, chosen, settles, each) =
                run bytes m' merged e' rest r at in
              (
                p ∷ vs,
                after,
                e'',
                round-Reads bytes f fs i merged e false p p e' (back ++ rest) rest r (after, e'')
                    (bit' ∙ no_) in_p written given reads,
                bytes_more
                    ∙ ap (λ l. l ++ values_wire vs) bytes_e
                    ∙ append_assoc (content e) (value_wire p) (values_wire vs),
                (rw no_ in_p, chosen),
                settles,
                ((λ t. absurd (ground (arith, t, no_))), each),
              ),
        )
      ]
