-- ===== src/Schema/Runtime/Json/Converts.antt =====
-- Values become JSON and come back.
use keydrop.Base.{◌≡◌, List, ◌∷◌, some}
use keydrop.Base.{text_key, find}
use keydrop.Schema.Types.{FieldDef}
use keydrop.Schema.Values.{FieldValue, OrderedPayload}
use keydrop.Schema.Runtime.Json.{JsonObject, Conversions, field_value_to_json_value}

module _ (conversions : Conversions) where
  -- A 32-bit float is not changed by the way through 64 bits.
  abbrev pub Exact : FieldValue → Type 0
  Exact (FieldValue.f32 x) = conversions.f32_of_f64 (conversions.f64_of_f32 x) ≡ x
  Exact _ = Unit {0}

  -- The object has the JSON value of each value, under the name of its field.
  abbrev pub Shown : List FieldDef → OrderedPayload → JsonObject → Type 0
  Shown (f ∷ fs) (v ∷ vs) json =
      (find f.name json ≡ some (field_value_to_json_value conversions v)) × Shown fs vs json
  Shown _ _ json = Unit {0}
