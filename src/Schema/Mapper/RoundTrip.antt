-- ===== src/Schema/Mapper/RoundTrip.antt =====
-- What the mappings by name and by order accept, and that they undo each other.
use keydrop.Base.{
  ◌≡◌, refl, sym, ap, ◌∙◌, ◌↔◌, arith, inl, inr, suc, ◌+◌, ◌<◌, append-nil, append_assoc, true,
  Option-cases, Bool-cases, text_eq, ◌⊎◌,
}
use keydrop.Base.{
  List, [], ◌∷◌, ◌++◌, none, some, length, All, Text, text_eq_iff, text_key, find, assign,
  find-assign,
}
use mathlib.Core.Path.{subst}
use keydrop.Core.Endian.{Host}
use keydrop.Core.Encoder.{Encoder}
use keydrop.Core.Packet.Write.{content, Appends}
use keydrop.Schema.Types.Distinct.{Unnamed, Distinct}
use keydrop.Schema.Types.{FieldDef, SchemaDef}
use keydrop.Schema.Values.{FieldValue, type_of, NamedPayload, OrderedPayload}
use keydrop.Schema.Values.Wire.{Valid, same_type_iff, value_wire, values_wire, write_value-wire}
use keydrop.Schema.Mapper.{FieldMapperCode, map_fields, is_known, all_known, map_named_to_ordered}
use keydrop.Schema.Mapper.{name_values, map_ordered_to_named, write_values, encode_named_payload}

-- The values are those that the names of the fields lead to, each of the type of its field.
abbrev pub Mapped : List FieldDef → NamedPayload → OrderedPayload → Type 0
Mapped [] named [] = Unit {0}
Mapped (f ∷ fs) named (v ∷ vs) =
    (find f.name named ≡ some v) × (type_of v ≡ f.type) × Mapped fs named vs
Mapped _ _ _ = ⊥

-- Each value has the type of its field.
abbrev pub Typed : List FieldDef → OrderedPayload → Type 0
Typed [] [] = Unit {0}
Typed (f ∷ fs) (v ∷ vs) = (type_of v ≡ f.type) × Typed fs vs
Typed _ _ = ⊥

map_fields-cons :
    (f : FieldDef) (fs : List FieldDef) (named : NamedPayload) (vs : OrderedPayload)
    → map_fields (f ∷ fs) named ≡ (FieldMapperCode.ok, vs)
    → (v : FieldValue) × (find f.name named ≡ some v)
      × (type_of v ≡ f.type)
      × ((map_fields fs named).0 ≡ FieldMapperCode.ok)
      × (vs ≡ v ∷ (map_fields fs named).1)
unfolding map_fields
map_fields-cons f fs named vs h = elim (Option-cases (find f.name named)) [
  | inl e ↦ absurd (ground (arith, e))
  | inr (v, e) ↦ (
    v,
    e,
    ground (arith, e, same_type_iff (type_of v) f.type),
    ground (arith, e),
    ground (arith, e),
  )
]

map_fields-Mapped :
    (fs : List FieldDef) (named : NamedPayload) (vs : OrderedPayload)
    → map_fields fs named ≡ (FieldMapperCode.ok, vs)
    → Mapped fs named vs
unfolding map_fields
map_fields-Mapped [] named vs h = subst (Mapped [] named) {x = []} (ground (arith, h)) tt
map_fields-Mapped (f ∷ fs) named vs h =
    let (v, e, t, rest, shape) = map_fields-cons f fs named vs h in
    subst (Mapped (f ∷ fs) named) (sym shape)
      (e, t, map_fields-Mapped fs named (map_fields fs named).1 (ground (arith, rest)))

Mapped-map_fields :
    (fs : List FieldDef) (named : NamedPayload) (vs : OrderedPayload)
    → Mapped fs named vs
    → map_fields fs named ≡ (FieldMapperCode.ok, vs)
unfolding map_fields
Mapped-map_fields [] named [] h = refl
Mapped-map_fields [] named (v ∷ vs) h = elim h [ ]
Mapped-map_fields (f ∷ fs) named [] h = elim h [ ]
Mapped-map_fields (f ∷ fs) named (v ∷ vs) (e, t, rest) =
    ground (arith, Mapped-map_fields fs named vs rest, same_type_iff (type_of v) f.type)

-- The names of the entries are all names of fields.
abbrev pub NamesField : Text → List FieldDef → Type 0
NamesField name [] = ⊥
NamesField name (f ∷ fs) = (f.name ≡ name) ⊎ NamesField name fs

abbrev pub Known : List FieldDef → NamedPayload → Type 0
Known fields named = All (λ entry. NamesField entry.0 fields) named

is_known_iff : (fs : List FieldDef) (name : Text) → (is_known fs name ≡ true) ↔ NamesField name fs
unfolding is_known
is_known_iff [] name = (λ h. absurd (ground (arith, h)), λ h. elim h [ ])
is_known_iff (f ∷ fs) name =
    let (here, back) = text_eq_iff f.name name in
    let (more, less) = is_known_iff fs name in
    (
      λ h. elim (Bool-cases (text_eq f.name name)) [
        | inl e ↦ inl (here e)
        | inr e ↦ inr (more (ground (arith, h, e)))
      ],
      λ h. elim h [ inl e ↦ ground (arith, back e) | inr e ↦ ground (arith, less e) ],
    )

all_known_iff :
    (fs : List FieldDef) (named : NamedPayload) → (all_known fs named ≡ true) ↔ Known fs named
unfolding all_known
all_known_iff fs [] = (λ h. tt, λ h. refl)
all_known_iff fs ((name, value) ∷ rest) =
    let (here, back) = is_known_iff fs name in
    let (more, less) = all_known_iff fs rest in
    (
      λ h. (here (ground (arith, h)), more (ground (arith, h))),
      λ (one, others). ground (arith, back one, less others),
    )

map_named-cases :
    (schema : SchemaDef) (named : NamedPayload) (vs : OrderedPayload)
    → (map_named_to_ordered schema named ≡ (FieldMapperCode.ok, vs)) ↔ (
        (map_fields schema.fields named ≡ (FieldMapperCode.ok, vs))
        × (length schema.fields < length named → all_known schema.fields named ≡ true))
unfolding map_named_to_ordered
map_named-cases schema named vs = (λ h. ground arith, λ h. ground arith)

-- A payload by name is mapped to values exactly where each field's name leads to its value, which
-- has the type of the field, and, if there are more entries than fields, the name of every entry is
-- that of a field.
pub map_named_to_ordered_iff :
    (schema : SchemaDef) (named : NamedPayload) (vs : OrderedPayload)
    → (map_named_to_ordered schema named ≡ (FieldMapperCode.ok, vs)) ↔ (
        Mapped schema.fields named vs
        × (length schema.fields < length named → Known schema.fields named))
map_named_to_ordered_iff schema named vs =
    let cases = map_named-cases schema named vs in
    (
      λ h.
          let (run, known) = cases.0 h in
          (
            map_fields-Mapped schema.fields named vs run,
            λ more. (all_known_iff schema.fields named).0 (known more),
          ),
      λ (m, known). cases.1 (
        Mapped-map_fields schema.fields named vs m,
        λ more. (all_known_iff schema.fields named).1 (known more),
      ),
    )

length-assign :
    (name : Text) (v : FieldValue) (named : NamedPayload)
    → find name named ≡ none
    → length (assign name v named) ≡ length named + 1
unfolding find assign
length-assign name v [] h = refl
length-assign name v ((n, w) ∷ named) h = ground (arith, length-assign name v named)

-- What naming the values of `fs` gives: the values under their names, and nothing else changed.
record Named (fs : List FieldDef) (vs : OrderedPayload) (before after : NamedPayload) : Type 0 where
  mapped : Mapped fs after vs
  others : (name : Text) → Unnamed name fs → find name after ≡ find name before
  grown : length after ≡ length before + length fs

-- No field is named yet.
abbrev Fresh : List FieldDef → NamedPayload → Type 0
Fresh fs named = All (λ f. find f.name named ≡ none) fs

Fresh-assign :
    (name : Text) (v : FieldValue) (fs : List FieldDef) (named : NamedPayload)
    → Unnamed name fs
    → Fresh fs named
    → Fresh fs (assign name v named)
Fresh-assign name v [] named u h = tt
Fresh-assign name v (f ∷ fs) named (u, us) (h, hs) = (
  ground (arith, find-assign name f.name v named, text_eq_iff name f.name),
  Fresh-assign name v fs named us hs,
)

name_values-Named :
    (fs : List FieldDef) (vs : OrderedPayload) (before : NamedPayload)
    → Distinct fs
    → Typed fs vs
    → Fresh fs before
    → (after : NamedPayload) × (name_values fs vs before ≡ (FieldMapperCode.ok, after))
      × Named fs vs before after
unfolding name_values
name_values-Named [] [] before d t h =
    (before, refl, record { mapped = tt; others = λ n u. refl; grown = omega arith })
name_values-Named [] (v ∷ vs) before d t h = elim t [ ]
name_values-Named (f ∷ fs) [] before d t h = elim t [ ]
name_values-Named (f ∷ fs) (v ∷ vs) before (u, d) (t, ts) (h, hs) =
    let mid = assign f.name v before in
    let put = λ (n : Text). find-assign f.name n v before in
    let (after, run, rest) =
      name_values-Named fs vs mid d ts (Fresh-assign f.name v fs before u hs) in
    (
      after,
      ground (arith, run, same_type_iff (type_of v) f.type, t),
      record {
        mapped = (
          rest.others f.name u ∙ ground (arith, put f.name, text_eq_iff f.name f.name),
          t,
          rest.mapped,
        );
        others = λ n w. rest.others n w.1 ∙ ground (arith, put n, text_eq_iff f.name n, w.0);
        grown = omega (arith, rest.grown, length-assign f.name v before h);
      },
    )

pub Typed-length : (fs : List FieldDef) (vs : OrderedPayload) → Typed fs vs → length vs ≡ length fs
Typed-length [] [] t = refl
Typed-length [] (v ∷ vs) t = elim t [ ]
Typed-length (f ∷ fs) [] t = elim t [ ]
Typed-length (f ∷ fs) (v ∷ vs) (t, ts) = ap suc (Typed-length fs vs ts)

Fresh-nil : (fs : List FieldDef) → Fresh fs []
unfolding find
Fresh-nil [] = tt
Fresh-nil (f ∷ fs) = (refl, Fresh-nil fs)

-- Where the names of the fields differ and each value has the type of its field, naming the values
-- and ordering them again gives the values.
pub map_named_to_ordered-map_ordered_to_named :
    (schema : SchemaDef) (vs : OrderedPayload)
    → Distinct schema.fields
    → Typed schema.fields vs
    → (named : NamedPayload) × (map_ordered_to_named schema vs ≡ (FieldMapperCode.ok, named))
      × (map_named_to_ordered schema named ≡ (FieldMapperCode.ok, vs))
unfolding map_ordered_to_named
map_named_to_ordered-map_ordered_to_named schema vs d t =
    let (named, run, made) = name_values-Named schema.fields vs [] d t (Fresh-nil schema.fields) in
    let size = Typed-length schema.fields vs t in
    (
      named,
      ground (arith, run, size),
      (map_named_to_ordered_iff schema named vs).1
          (made.mapped, λ more. absurd (omega (arith, made.grown, more))),
    )

write_values-wire :
    (host : Host) (e : Encoder) (vs : OrderedPayload)
    → All Valid vs
    → Appends e (values_wire vs) (write_values host e vs)
unfolding write_values values_wire
write_values-wire host e [] h = (e, refl, sym (append-nil (content e)))
write_values-wire host e (v ∷ vs) (hv, h) =
    let (e', one, front) = write_value-wire host e v hv in
    let (e'', more, back) = write_values-wire host e' vs h in
    (
      e'',
      rw (one, write_values) more,
      back
          ∙ ap (λ t. t ++ values_wire vs) front
          ∙ append_assoc (content e) (value_wire v) (values_wire vs),
    )

encode_mapped :
    (host : Host) (schema : SchemaDef) (named : NamedPayload) (e : Encoder) (vs : OrderedPayload)
    → map_named_to_ordered schema named ≡ (FieldMapperCode.ok, vs)
    → encode_named_payload host schema named e ≡ (FieldMapperCode.ok, write_values host e vs)
unfolding encode_named_payload
encode_mapped host schema named e vs h = ground (arith, h)

-- Where a payload maps to valid values, `encode_named_payload` succeeds on every machine and
-- appends the wire bytes of the values in the order of the schema.
pub encode_named_payload-wire :
    (host : Host) (schema : SchemaDef) (named : NamedPayload) (e : Encoder) (vs : OrderedPayload)
    → map_named_to_ordered schema named ≡ (FieldMapperCode.ok, vs)
    → All Valid vs
    → ((encode_named_payload host schema named e).0 ≡ FieldMapperCode.ok)
      × Appends e (values_wire vs) (encode_named_payload host schema named e).1
encode_named_payload-wire host schema named e vs h valid =
    rw (encode_mapped host schema named e vs h) (refl, write_values-wire host e vs valid)
