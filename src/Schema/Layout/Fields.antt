-- ===== src/Schema/Layout/Fields.antt =====
-- The layout described directly, without the loop's state.
use keydrop.Base.{
  ℕ, zero, suc, ◌+◌, ◌≡◌, ◌≤◌, ◌⊎◌, inl, inr, refl, ap, ◌∙◌, sym, arith, Bool, true, false, ◌||◌,
  not, List, [], ◌∷◌, ◌++◌,
}
use keydrop.Base.{
  none, some, length, length-append, get_elem?, take, if◌then◌else◌, append_assoc, append-nil,
}
use keydrop.Schema.Types.{
  FieldType, FieldDef, SchemaDef, try_field_type_fixed_size, is_variable_length,
}
use mathlib.Core.Path.{subst}
use keydrop.Schema.Layout.{
  FieldCodec, u8_value, u16_value, u32_value, i8_value, i16_value, i32_value, f32_value, f64_value,
  string_value, bytes_value,
}
use keydrop.Base.{All}
use keydrop.Schema.Layout.{
  FieldLayout, PacketLayout, Building, codec_for_type, add_field, add_fields, build_packet_layout,
  empty_layout,
}

-- The least number of bytes of a field in a packet: its size, or its length prefix.
unfoldable pub least_size : FieldType → ℕ
least_size type = elim (try_field_type_fixed_size type) [ some n ↦ n | none ↦ 2 ]

unfoldable pub sum_by : (FieldType → ℕ) → List FieldDef → ℕ
sum_by f [] = 0
sum_by f (field ∷ rest) = f field.type + sum_by f rest

unfoldable pub any_variable : List FieldDef → Bool
any_variable [] = false
any_variable (field ∷ rest) = is_variable_length field.type || any_variable rest

unfoldable pub fixed_bytes : FieldType → ℕ
fixed_bytes type = elim (try_field_type_fixed_size type) [ some n ↦ n | none ↦ 0 ]

unfoldable pub variable_count : FieldType → ℕ
variable_count type = if is_variable_length type then 1 else 0

-- The layout of `field` behind the fields `before`.
unfoldable pub describe : List FieldDef → FieldDef → FieldLayout
describe before field = record {
  type = field.type;
  codec = codec_for_type field.type;
  schema_index = length before;
  fixed_size = fixed_bytes field.type;
  byte_offset = 2 + sum_by least_size before;
  variable_length = is_variable_length field.type;
  dynamic_offset = any_variable before;
  has_max_length = field.constraints.has_max_length;
  max_length = field.constraints.max_length;
}

-- The layouts of `fs`, which stand behind the fields `before`.
unfoldable pub descriptions : List FieldDef → List FieldDef → List FieldLayout
descriptions before [] = []
descriptions before (f ∷ fs) = describe before f ∷ descriptions (before ++ (f ∷ [])) fs

-- What a layout says of the fields `fs` in all.
pub record Totals (fs : List FieldDef) (l : PacketLayout) : Type 0 where
  pub least : l.minimum_packet_size ≡ 2 + sum_by least_size fs
  pub payload : l.fixed_payload_bytes ≡ sum_by fixed_bytes fs
  pub variables : l.variable_field_count ≡ sum_by variable_count fs
  pub only_fixed : l.fixed_size_only ≡ not (any_variable fs)

-- The state of the loop behind the fields `before`.
record Built (before : List FieldDef) (b : Building) : Type 0 where
  totals : Totals before b.layout
  reached : b.cursor ≡ 2 + sum_by least_size before
  passed : b.dynamic ≡ any_variable before

sum_by-snoc :
    (f : FieldType → ℕ) (fs : List FieldDef) (x : FieldDef)
    → sum_by f (fs ++ (x ∷ [])) ≡ sum_by f fs + f x.type
unfolding sum_by
sum_by-snoc f [] x = omega arith
sum_by-snoc f (y ∷ ys) x = omega (arith, sum_by-snoc f ys x)

any_variable-snoc :
    (fs : List FieldDef) (x : FieldDef)
    → any_variable (fs ++ (x ∷ [])) ≡ any_variable fs || is_variable_length x.type
unfolding any_variable
any_variable-snoc [] x = ground arith
any_variable-snoc (y ∷ ys) x = ground (arith, any_variable-snoc ys x)

-- The two ways in which the code tells a variable field agree.
pub fixed_size-cases :
    (t : FieldType)
    → ((n : ℕ) × (try_field_type_fixed_size t ≡ some n) × (is_variable_length t ≡ false) × (1 ≤ n))
      ⊎ ((try_field_type_fixed_size t ≡ none) × (is_variable_length t ≡ true))
unfolding try_field_type_fixed_size is_variable_length
fixed_size-cases FieldType.u8 = inl (1, refl, refl, omega arith)
fixed_size-cases FieldType.u16 = inl (2, refl, refl, omega arith)
fixed_size-cases FieldType.u32 = inl (4, refl, refl, omega arith)
fixed_size-cases FieldType.i8 = inl (1, refl, refl, omega arith)
fixed_size-cases FieldType.i16 = inl (2, refl, refl, omega arith)
fixed_size-cases FieldType.i32 = inl (4, refl, refl, omega arith)
fixed_size-cases FieldType.f32 = inl (4, refl, refl, omega arith)
fixed_size-cases FieldType.f64 = inl (8, refl, refl, omega arith)
fixed_size-cases FieldType.string = inr (refl, refl)
fixed_size-cases FieldType.bytes = inr (refl, refl)

add_field-Built :
    (before : List FieldDef) (b : Building) (x : FieldDef)
    → Built before b
    → Built (before ++ (x ∷ [])) (add_field b (length before) x)
      × ((add_field b (length before) x).layout.fields
          ≡ b.layout.fields ++ (describe before x ∷ []))
      × ((add_field b (length before) x).layout.message_id ≡ b.layout.message_id)
      × ((add_field b (length before) x).layout.fixed_packet_size ≡ b.layout.fixed_packet_size)
unfolding add_field describe least_size fixed_bytes variable_count
add_field-Built before b x h = ground (
  arith,
  fixed_size-cases x.type,
  sum_by-snoc least_size before x,
  sum_by-snoc fixed_bytes before x,
  sum_by-snoc variable_count before x,
  any_variable-snoc before x,
)

length-snoc : (fs : List FieldDef) (x : FieldDef) → length (fs ++ (x ∷ [])) ≡ length fs + 1
length-snoc fs x = omega (arith, length-append fs (x ∷ []))

add_fields-Built :
    (fs before : List FieldDef) (b : Building)
    → Built before b
    → Built (before ++ fs) (add_fields b (length before) fs)
      × ((add_fields b (length before) fs).layout.fields
          ≡ b.layout.fields ++ descriptions before fs)
      × ((add_fields b (length before) fs).layout.message_id ≡ b.layout.message_id)
      × ((add_fields b (length before) fs).layout.fixed_packet_size ≡ b.layout.fixed_packet_size)
unfolding descriptions
add_fields-Built [] before b h =
    unfold add_fields in (rw (append-nil before) h, sym (append-nil b.layout.fields), refl, refl)
add_fields-Built (x ∷ fs) before b h =
    let step = add_field-Built before b x h in
    let b' = add_field b (length before) x in
    let all = add_fields-Built fs (before ++ (x ∷ [])) b' step.0 in
    let same : add_fields b' (length (before ++ (x ∷ []))) fs
        ≡ add_fields b (length before) (x ∷ fs) =
      unfold add_fields in ap (λ i. add_fields b' i fs) (length-snoc before x) in
    (
      rw (append_assoc before (x ∷ []) fs, same) at all.0,
      ap (λ r. r.layout.fields) (sym same)
          ∙ all.1
          ∙ ap (λ l. l ++ descriptions (before ++ (x ∷ [])) fs) step.1
          ∙ append_assoc b.layout.fields (describe before x ∷ []) _,
      ap (λ r. r.layout.message_id) (sym same) ∙ all.2 ∙ step.2,
      ap (λ r. r.layout.fixed_packet_size) (sym same) ∙ all.3 ∙ step.3,
    )

-- The type whose values a codec is for.
unfoldable pub type_of_codec : FieldCodec → FieldType
type_of_codec u8_value = FieldType.u8
type_of_codec u16_value = FieldType.u16
type_of_codec u32_value = FieldType.u32
type_of_codec i8_value = FieldType.i8
type_of_codec i16_value = FieldType.i16
type_of_codec i32_value = FieldType.i32
type_of_codec f32_value = FieldType.f32
type_of_codec f64_value = FieldType.f64
type_of_codec string_value = FieldType.string
type_of_codec bytes_value = FieldType.bytes

-- The codec of a field is the one for the values of its type.
abbrev pub Coded : FieldLayout → Type 0
Coded l = type_of_codec l.codec ≡ l.type

codec_for_type-Coded : (t : FieldType) → type_of_codec (codec_for_type t) ≡ t
unfolding codec_for_type type_of_codec
codec_for_type-Coded FieldType.u8 = refl
codec_for_type-Coded FieldType.u16 = refl
codec_for_type-Coded FieldType.u32 = refl
codec_for_type-Coded FieldType.i8 = refl
codec_for_type-Coded FieldType.i16 = refl
codec_for_type-Coded FieldType.i32 = refl
codec_for_type-Coded FieldType.f32 = refl
codec_for_type-Coded FieldType.f64 = refl
codec_for_type-Coded FieldType.string = refl
codec_for_type-Coded FieldType.bytes = refl

descriptions-Coded : (before fs : List FieldDef) → All Coded (descriptions before fs)
unfolding descriptions describe
descriptions-Coded before [] = tt
descriptions-Coded before (f ∷ fs) =
    (codec_for_type-Coded f.type, descriptions-Coded (before ++ (f ∷ [])) fs)

-- What a layout of a schema is.
pub record Describes (schema : SchemaDef) (l : PacketLayout) : Type 0 where
  pub same_id : l.message_id ≡ schema.message_id
  pub each : l.fields ≡ descriptions [] schema.fields
  pub coded : All Coded l.fields
  pub totals : Totals schema.fields l
  pub fixed : l.fixed_packet_size ≡ (if l.fixed_size_only then l.minimum_packet_size else 0)

finish :
    (schema : SchemaDef) (l : PacketLayout)
    → Totals schema.fields l
    → l.fields ≡ descriptions [] schema.fields
    → All Coded l.fields
    → l.message_id ≡ schema.message_id
    → l.fixed_packet_size ≡ 0
    → Describes schema
        (if l.fixed_size_only then record l { fixed_packet_size = l.minimum_packet_size } else l)
finish schema l t e c i z = ground arith

-- The layout of a schema describes it: each field with the codec of its type, its index, size, limit and the offset
-- that follows from the least sizes of the fields before it, the totals of the least packet size,
-- of the fixed bytes and of the variable fields, and the packet size where no field is variable.
pub build_packet_layout-Describes :
    (schema : SchemaDef) → Describes schema (build_packet_layout schema)
unfolding build_packet_layout
build_packet_layout-Describes schema =
    let start : Building = record {
      layout = empty_layout schema.message_id;
      cursor = 2;
      dynamic = false;
    } in
    let begun : Built [] start =
      unfold sum_by any_variable in
      record {
        totals = record { least = refl; payload = refl; variables = refl; only_fixed = refl };
        reached = refl;
        passed = refl;
      } in
    let all = add_fields-Built schema.fields [] start begun in
    let coded = subst (All Coded) (sym all.1) (descriptions-Coded [] schema.fields) in
    finish schema (add_fields start 0 schema.fields).layout all.0.totals all.1 coded all.2 all.3

-- The layout of the field at an index.
pub get_elem?-descriptions :
    (fs before : List FieldDef) (i : ℕ) (x : FieldDef)
    → get_elem? fs i ≡ some x
    → get_elem? (descriptions before fs) i ≡ some (describe (before ++ take i fs) x)
unfolding descriptions
get_elem?-descriptions [] before i x h = cc
get_elem?-descriptions (y ∷ fs) before zero x h = ground (arith, append-nil before)
get_elem?-descriptions (y ∷ fs) before (suc i) x h =
    get_elem?-descriptions fs (before ++ (y ∷ [])) i x h
    ∙ ap (λ l. some (describe l x)) (append_assoc before (y ∷ []) (take i fs))
