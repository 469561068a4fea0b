-- ===== src/Schema/Registry/Registered.antt =====
-- What a registration does to what the registry finds, and that the lookups belong together.
use keydrop.Base.{ℕ, ◌≡◌, ◌≢◌, sym, ap, ◌⊎◌, inl, inr, arith, Option-cases}
use keydrop.Base.{
  none, some, if◌then◌else◌, ◌==◌, Text, text_eq, text_eq_iff, find, find-insert, text_key,
  number_key,
}
use mathlib.Core.Option
use mathlib.Core.Path.{subst}
use keydrop.Schema.Types.{SchemaDef}
use keydrop.Schema.Layout.{build_packet_layout}
use keydrop.Schema.Registry.{SchemaRegistry, ok, register_schema, registered}
use keydrop.Schema.Registry.{
  fast_codec, find_by_name, find_by_message_id, find_layout_by_name, find_layout_by_message_id,
}
use keydrop.Schema.Registry.{find_fast_codec_by_message_id, find_fast_codec_by_name}
use keydrop.Schema.Registry.Agrees.{Agrees, Refusable, registered-Agrees, register_schema-cases}

-- `r'` finds the schema under its name and its id, and every other one as `r` does.
pub record Registered (r r' : SchemaRegistry) (s : SchemaDef) : Type 0 where
  pub agrees : Agrees r'
  pub by_name :
      (n : Text)
      → find_by_name r' n ≡ (if text_eq s.schema_name n then some s else find_by_name r n)
  pub by_message_id :
      (i : ℕ)
      → find_by_message_id r' i ≡ (if s.message_id == i then some s else find_by_message_id r i)

module _ (r : SchemaRegistry) (s : SchemaDef) (agrees : Agrees r)
    (new_name : find s.schema_name r.schemas_by_name ≡ none)
    (new_id : find s.message_id r.name_by_message_id ≡ none) where
  registered-by_name :
      (n : Text)
      → find_by_name (registered r s) n
        ≡ (if text_eq s.schema_name n then some s else find_by_name r n)
  unfolding find_by_name
  registered-by_name n = find-insert s.schema_name n s r.schemas_by_name new_name

  registered-by_message_id :
      (i : ℕ)
      → find_by_message_id (registered r s) i
        ≡ (if s.message_id == i then some s else find_by_message_id r i)
  unfolding find_by_message_id find_by_name
  registered-by_message_id i =
      let ids = find-insert s.message_id i s.schema_name r.name_by_message_id new_id in
      let self = find-insert s.schema_name s.schema_name s r.schemas_by_name new_name in
      elim (Option-cases (find i r.name_by_message_id)) [
        | inl e ↦ ground (arith, ids, self, text_eq_iff s.schema_name s.schema_name, e)
        | inr (n, e) ↦
            let old = agrees.identified i n e in
            let names = find-insert s.schema_name n s r.schemas_by_name new_name in
            ground (
              arith,
              ids,
              self,
              names,
              old.1,
              text_eq_iff s.schema_name s.schema_name,
              text_eq_iff s.schema_name n,
              e,
            )
      ]

  registered-Registered : Registered r (registered r s) s
  registered-Registered = record {
    agrees = registered-Agrees r s agrees new_name new_id;
    by_name = registered-by_name;
    by_message_id = registered-by_message_id;
  }

-- A registration of a schema either fails, for a name or fields that are missing or a name or an id
-- that is taken, and leaves the registry as it was; or it reports `ok`, and then the registry finds
-- the schema under its name and under its message id, finds all others as before, and still agrees.
pub register_schema-Registered :
    (r : SchemaRegistry) (s : SchemaDef)
    → Agrees r
    → (((register_schema r s).0 ≢ ok) × ((register_schema r s).1 ≡ r) × Refusable r s)
      ⊎ (((register_schema r s).0 ≡ ok) × Registered r (register_schema r s).1 s)
register_schema-Registered r s agrees = elim (register_schema-cases r s) [
  | inl failed ↦ inl failed
  | inr (e, new_name, new_id) ↦ inr (
    ap (λ x. x.0) e,
    subst (λ x. Registered r x.1 s) (sym e) (registered-Registered r s agrees new_name new_id),
  )
]

-- In a registry that agrees, the layout and the codec found by name or by message id are those
-- built from the schema found in the same way, and none is found where no schema is.
pub find_layout-find_by :
    (r : SchemaRegistry) (n : Text) (i : ℕ)
    → Agrees r
    → (find_layout_by_name r n ≡ Option.map build_packet_layout (find_by_name r n))
      × (find_fast_codec_by_name r n ≡ Option.map fast_codec (find_by_name r n))
      × (find_layout_by_message_id r i ≡ Option.map build_packet_layout (find_by_message_id r i))
      × (find_fast_codec_by_message_id r i ≡ Option.map fast_codec (find_by_message_id r i))
unfolding find_layout_by_name find_by_name find_fast_codec_by_name find_layout_by_message_id
    find_by_message_id find_fast_codec_by_message_id
find_layout-find_by r n i agrees = (
  agrees.laid_out n,
  agrees.compiled n,
  elim (Option-cases (find i r.name_by_message_id)) [
    | inl e ↦ ground (arith, e)
    | inr (m, e) ↦ ground (arith, e, agrees.laid_out m)
  ],
  elim (Option-cases (find i r.name_by_message_id)) [
    | inl e ↦ ground (arith, e)
    | inr (m, e) ↦ ground (arith, e, agrees.compiled m)
  ],
)
