-- ===== src/Schema/Types/Names.antt =====
-- The names of the field types.
use keydrop.Base.{◌≡◌, refl, ◌↔◌, arith, some, Text, codes, text_eq, text_eq_iff}
use keydrop.Schema.Types.{FieldType, u8}
use keydrop.Schema.Types.{try_parse_field_type, field_type_to_string}

parse-name : (t : FieldType) → try_parse_field_type (field_type_to_string t) ≡ some t
unfolding try_parse_field_type field_type_to_string text_eq
parse-name u8 = refl
parse-name _ = refl

name-parse :
    (s : Text) (t : FieldType) → try_parse_field_type s ≡ some t → s ≡ field_type_to_string t
unfolding try_parse_field_type field_type_to_string
name-parse s t h = ground (
  arith,
  text_eq_iff (codes "u8") s,
  text_eq_iff (codes "u16") s,
  text_eq_iff (codes "u32") s,
  text_eq_iff (codes "i8") s,
  text_eq_iff (codes "i16") s,
  text_eq_iff (codes "i32") s,
  text_eq_iff (codes "f32") s,
  text_eq_iff (codes "f64") s,
  text_eq_iff (codes "string") s,
  text_eq_iff (codes "bytes") s,
)

-- A text is parsed as a field type exactly where it is the name that the type is printed by.
pub try_parse_field_type_iff :
    (s : Text) (t : FieldType) → (try_parse_field_type s ≡ some t) ↔ (s ≡ field_type_to_string t)
try_parse_field_type_iff s t = (name-parse s t, λ e. rw e (parse-name t))
