-- ===== src/Schema/Validator/Accepts.antt =====
-- What the validator accepts, said without a loop.
use keydrop.Base.{
  ℕ, suc, ◌+◌, ◌≤◌, ◌≡◌, ◌≢◌, refl, ap, ◌∙◌, ◌↔◌, arith, inl, inr, true, false, Bool-cases,
  Option-cases,
}
use keydrop.Base.{if◌then◌else◌, ltb, not}
use keydrop.Base.{List, [], ◌∷◌, some, length, All, Text, text_eq_iff, map}
use keydrop.Schema.Types.{FieldType, FieldDef, SchemaDef}
use keydrop.Schema.Types.Distinct.{Unnamed, Distinct}
use keydrop.Schema.Values.{FieldValue, type_of, OrderedPayload}
use keydrop.Schema.Values.Wire.{same_type_iff}
use keydrop.Schema.Registry.{SchemaRegistry, find_by_name, find_by_message_id}
use keydrop.Schema.Validator.{
  SchemaValidationCode, contains, validate_fields, validate_registered, validate_schema,
}
use keydrop.Schema.Validator.{
  check_types, validate_payload_field_types, actual_length, too_long, check_values,
  validate_payload_values,
}

-- The fields' indexes count up from `i`.
abbrev pub Counted : ℕ → List FieldDef → Type 0
Counted i [] = Unit {0}
Counted i (f ∷ fs) = (f.index ≡ i) × Counted (i + 1) fs

-- No field has one of the names.
abbrev Apart : List Text → List FieldDef → Type 0
Apart names fields = All (λ f. contains names f.name ≡ false) fields

Apart-cons :
    (name : Text) (names : List Text) (fs : List FieldDef)
    → Apart (name ∷ names) fs ↔ (Unnamed name fs × Apart names fs)
unfolding contains
Apart-cons name names [] = (λ h. (tt, tt), λ h. tt)
Apart-cons name names (f ∷ fs) =
    let rest = Apart-cons name names fs in
    let here : (contains (name ∷ names) f.name ≡ false)
        ↔ ((f.name ≢ name) × (contains names f.name ≡ false)) =
      (
        λ h. ground (arith, h, text_eq_iff name f.name),
        λ (a, b). ground (arith, a, b, text_eq_iff name f.name),
      ) in
    (
      λ (h, hs). let (u, a) = here.0 h in let (us, others) = rest.0 hs in ((u, us), (a, others)),
      λ ((u, us), (a, others)). (here.1 (u, a), rest.1 (us, others)),
    )

validate_fields-ok :
    (names : List Text) (i : ℕ) (fs : List FieldDef)
    → (validate_fields names i fs ≡ SchemaValidationCode.ok)
      ↔ (Counted i fs × Apart names fs × Distinct fs)
unfolding validate_fields
validate_fields-ok names i [] = (λ h. (tt, tt, tt), λ h. refl)
validate_fields-ok names i (f ∷ fs) =
    let more = validate_fields-ok (f.name ∷ names) (i + 1) fs in
    let apart = Apart-cons f.name names fs in
    (
      λ h.
          let (counted, apart', distinct) = more.0 (ground (arith, h)) in
          let (u, others) = apart.0 apart' in
          ((ground (arith, h), counted), (ground (arith, h), others), (u, distinct)),
      λ ((index, counted), (new, others), (u, distinct)).
          let rest = more.1 (counted, apart.1 (u, others), distinct) in
          ground (arith, rest, index, new),
    )

-- Neither the name nor the id of the schema belongs to another schema of the registry.
abbrev pub Compatible : SchemaDef → SchemaRegistry → Type 0
Compatible schema r =
    ((t : SchemaDef)
      → find_by_name r schema.schema_name ≡ some t
      → t.message_id ≡ schema.message_id)
    × ((t : SchemaDef)
        → find_by_message_id r schema.message_id ≡ some t
        → t.schema_name ≡ schema.schema_name)

validate_registered-ok :
    (schema : SchemaDef) (r : SchemaRegistry)
    → (validate_registered schema r ≡ SchemaValidationCode.ok) ↔ Compatible schema r
unfolding validate_registered
validate_registered-ok schema r = elim (Option-cases (find_by_name r schema.schema_name)) [
  | inl a ↦ elim (Option-cases (find_by_message_id r schema.message_id)) [
    | inl b ↦ (λ h. ((λ t e. cc), (λ t e. cc)), λ h. ground (arith, a, b))
    | inr (u, b) ↦
        let name = text_eq_iff u.schema_name schema.schema_name in
        (
          λ h. ((λ t e. cc), (λ t e. ground (arith, a, b, name))),
          λ h. ground (arith, a, b, name, h.1 u b),
        )
  ]
  | inr (t, a) ↦ elim (Option-cases (find_by_message_id r schema.message_id)) [
    | inl b ↦
        (λ h. ((λ t' e. ground (arith, a, b)), (λ t' e. cc)), λ h. ground (arith, a, b, h.0 t a))
    | inr (u, b) ↦
        let name = text_eq_iff u.schema_name schema.schema_name in
        (
          λ h. ((λ t' e. ground (arith, a, b)), (λ t' e. ground (arith, a, b, name))),
          λ h. ground (arith, a, b, name, h.0 t a, h.1 u b),
        )
  ]
]

-- What makes a schema well formed.
pub record WellFormed (schema : SchemaDef) : Type 0 where
  pub has_name : length schema.schema_name ≢ 0
  pub has_fields : length schema.fields ≢ 0
  pub has_id : schema.message_id ≢ 0
  pub counted : Counted 0 schema.fields
  pub distinct : Distinct schema.fields

validate_schema-cases :
    (schema : SchemaDef) (r : SchemaRegistry)
    → (validate_schema schema (some r) ≡ SchemaValidationCode.ok) ↔ (
        (length schema.schema_name ≢ 0)
        × (length schema.fields ≢ 0)
        × (schema.message_id ≢ 0)
        × (validate_fields [] 0 schema.fields ≡ SchemaValidationCode.ok)
        × (validate_registered schema r ≡ SchemaValidationCode.ok))
unfolding validate_schema
validate_schema-cases schema r = (λ h. ground arith, λ h. ground arith)

Apart-nil : (fs : List FieldDef) → Apart [] fs
unfolding contains
Apart-nil [] = tt
Apart-nil (f ∷ fs) = (refl, Apart-nil fs)

-- A schema is valid for a registry exactly where it has a name, an id other than 0, and fields whose
-- indexes count up from 0 and whose names differ, and where a schema of the registry with its name
-- has its id and one with its id has its name.
pub validate_schema_iff :
    (schema : SchemaDef) (r : SchemaRegistry)
    → (validate_schema schema (some r) ≡ SchemaValidationCode.ok)
      ↔ (WellFormed schema × Compatible schema r)
validate_schema_iff schema r =
    let cases = validate_schema-cases schema r in
    let fields = validate_fields-ok [] 0 schema.fields in
    let others = validate_registered-ok schema r in
    (
      λ h.
          let (name, some_fields, id, each, registered) = cases.0 h in
          let (counted, apart, distinct) = fields.0 each in
          (
            record {
              has_name = name;
              has_fields = some_fields;
              has_id = id;
              counted = counted;
              distinct = distinct;
            },
            others.0 registered,
          ),
      λ (w, c). cases.1 (
        w.has_name,
        w.has_fields,
        w.has_id,
        fields.1 (w.counted, Apart-nil schema.fields, w.distinct),
        others.1 c,
      ),
    )

-- A value that has a length has not more than the limit of the field, if there is one.
abbrev pub Limited : FieldDef → FieldValue → Type 0
Limited f (FieldValue.string s) =
    f.constraints.has_max_length ≡ true → length s ≤ f.constraints.max_length
Limited f (FieldValue.bytes s) =
    f.constraints.has_max_length ≡ true → length s ≤ f.constraints.max_length
Limited f _ = Unit {0}

-- Each value has the type of its field, and a string or byte vector is within the limit, if any.
abbrev pub Fitting : FieldDef → FieldValue → Type 0
Fitting f v = (type_of v ≡ f.type) × Limited f v

abbrev pub AllFit : List FieldDef → OrderedPayload → Type 0
AllFit [] [] = Unit {0}
AllFit (f ∷ fs) (v ∷ vs) = Fitting f v × AllFit fs vs
AllFit _ _ = ⊥

within_limit :
    (f : FieldDef) (size : ℕ)
    → ((if not f.constraints.has_max_length then false else ltb f.constraints.max_length size)
        ≡ false)
      ↔ (f.constraints.has_max_length ≡ true → size ≤ f.constraints.max_length)
within_limit f size = (
  λ h has. ground arith,
  λ h. elim (Bool-cases f.constraints.has_max_length) [
    | inl has ↦ ground (arith, has, h has)
    | inr free ↦ ground (arith, free)
  ],
)

too_long-Limited : (f : FieldDef) (v : FieldValue) → (too_long f v ≡ false) ↔ Limited f v
unfolding too_long actual_length
too_long-Limited f (FieldValue.u8 x) = (λ h. tt, λ h. ground arith)
too_long-Limited f (FieldValue.u16 x) = (λ h. tt, λ h. ground arith)
too_long-Limited f (FieldValue.u32 x) = (λ h. tt, λ h. ground arith)
too_long-Limited f (FieldValue.i8 x) = (λ h. tt, λ h. ground arith)
too_long-Limited f (FieldValue.i16 x) = (λ h. tt, λ h. ground arith)
too_long-Limited f (FieldValue.i32 x) = (λ h. tt, λ h. ground arith)
too_long-Limited f (FieldValue.f32 x) = (λ h. tt, λ h. ground arith)
too_long-Limited f (FieldValue.f64 x) = (λ h. tt, λ h. ground arith)
too_long-Limited f (FieldValue.string s) = within_limit f (length s)
too_long-Limited f (FieldValue.bytes s) = within_limit f (length s)

check_values-ok :
    (fs : List FieldDef) (vs : OrderedPayload)
    → length vs ≡ length fs
    → (check_values fs vs ≡ SchemaValidationCode.ok) ↔ AllFit fs vs
unfolding check_values
check_values-ok [] [] e = (λ h. tt, λ h. refl)
check_values-ok [] (v ∷ vs) e = absurd (omega arith)
check_values-ok (f ∷ fs) [] e = absurd (omega arith)
check_values-ok (f ∷ fs) (v ∷ vs) e =
    let more = check_values-ok fs vs (omega arith) in
    let type = same_type_iff (type_of v) f.type in
    let limit = too_long-Limited f v in
    (
      λ h. ((ground (arith, h, type), limit.0 (ground (arith, h))), more.0 (ground (arith, h))),
      λ ((t, l), rest). ground (arith, type, t, limit.1 l, more.1 rest),
    )

AllFit-length : (fs : List FieldDef) (vs : OrderedPayload) → AllFit fs vs → length vs ≡ length fs
AllFit-length [] [] h = refl
AllFit-length [] (v ∷ vs) h = elim h [ ]
AllFit-length (f ∷ fs) [] h = elim h [ ]
AllFit-length (f ∷ fs) (v ∷ vs) (h, hs) = ap suc (AllFit-length fs vs hs)

validate_values-cases :
    (schema : SchemaDef) (vs : OrderedPayload)
    → (validate_payload_values schema vs ≡ SchemaValidationCode.ok) ↔ (
        (length vs ≡ length schema.fields)
        × (check_values schema.fields vs ≡ SchemaValidationCode.ok))
unfolding validate_payload_values
validate_values-cases schema vs = (λ h. ground arith, λ h. ground arith)

-- The values of a payload are valid exactly where there is one for each field, of its type and, for
-- a string or byte vector with a limit, within the limit.
pub validate_payload_values_iff :
    (schema : SchemaDef) (vs : OrderedPayload)
    → (validate_payload_values schema vs ≡ SchemaValidationCode.ok) ↔ AllFit schema.fields vs
validate_payload_values_iff schema vs =
    let cases = validate_values-cases schema vs in
    (
      λ h. let (size, each) = cases.0 h in (check_values-ok schema.fields vs size).0 each,
      λ h.
          let size = AllFit-length schema.fields vs h in
          cases.1 (size, (check_values-ok schema.fields vs size).1 h),
    )

check_types-ok :
    (fs : List FieldDef) (ts : List FieldType)
    → length ts ≡ length fs
    → (check_types fs ts ≡ SchemaValidationCode.ok) ↔ (ts ≡ map (λ f. f.type) fs)
unfolding check_types
check_types-ok [] [] e = (λ h. refl, λ h. refl)
check_types-ok [] (t ∷ ts) e = absurd (omega arith)
check_types-ok (f ∷ fs) [] e = absurd (omega arith)
check_types-ok (f ∷ fs) (t ∷ ts) e =
    let more = check_types-ok fs ts (omega arith) in
    let type = same_type_iff f.type t in
    (λ h. ground (arith, type, h, more), λ h. ground (arith, type, h, more))

length-types : (fs : List FieldDef) → length (map (λ f. f.type) fs) ≡ length fs
length-types [] = refl
length-types (f ∷ fs) = ap suc (length-types fs)

-- The types of a payload are valid exactly where they are the types of the fields, in order.
pub validate_payload_field_types_iff :
    (schema : SchemaDef) (ts : List FieldType)
    → (validate_payload_field_types schema ts ≡ SchemaValidationCode.ok)
      ↔ (ts ≡ map (λ f. f.type) schema.fields)
unfolding validate_payload_field_types
validate_payload_field_types_iff schema ts =
    let each = λ (e : length ts ≡ length schema.fields). check_types-ok schema.fields ts e in
    (
      λ h.
          let size : length ts ≡ length schema.fields = ground arith in
          (each size).0 (ground arith),
      λ h.
          let size = ap length h ∙ length-types schema.fields in
          ground (arith, size, (each size).1 h),
    )
