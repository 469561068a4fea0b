-- ===== src/Schema/Registry/Agrees.antt =====
-- The four maps of a registry agree: what is found by name and by message id belongs together.
use keydrop.Base.{ℕ, ◌≡◌, ◌≢◌, refl, ap, ◌∙◌, ◌⊎◌, inl, inr, arith, Bool-cases}
use keydrop.Base.{
  List, none, some, length, if◌then◌else◌, ◌==◌, Text, text_eq, text_eq_iff, find, insert,
  find-insert, text_key, number_key,
}
use mathlib.Core.Option
use keydrop.Schema.Types.{SchemaDef}
use keydrop.Schema.Layout.{build_packet_layout}
use keydrop.Schema.Registry.{SchemaRegistry, ok, register_schema, registered, empty_registry}
use keydrop.Schema.Registry.{fast_codec}

pub record Agrees (r : SchemaRegistry) : Type 0 where
  pub named :
      (n : Text) (s : SchemaDef)
      → find n r.schemas_by_name ≡ some s
      → (s.schema_name ≡ n) × (find s.message_id r.name_by_message_id ≡ some n)
  pub identified :
      (i : ℕ) (n : Text)
      → find i r.name_by_message_id ≡ some n
      → (s : SchemaDef) × (find n r.schemas_by_name ≡ some s) × (s.message_id ≡ i)
  pub laid_out :
      (n : Text)
      → find n r.layouts_by_name ≡ Option.map build_packet_layout (find n r.schemas_by_name)
  pub compiled :
      (n : Text) → find n r.fast_codecs_by_name ≡ Option.map fast_codec (find n r.schemas_by_name)

pub empty-Agrees : Agrees empty_registry
unfolding find
empty-Agrees = record {
  named = λ n s h. cc;
  identified = λ i n h. absurd (ground arith);
  laid_out = λ n. refl;
  compiled = λ n. refl;
}

-- The reasons to refuse a schema.
abbrev pub Refusable : SchemaRegistry → SchemaDef → Type 0
Refusable r s =
    (length s.schema_name ≡ 0)
    ⊎ ((length s.fields ≡ 0)
        ⊎ ((find s.schema_name r.schemas_by_name ≢ none)
            ⊎ (find s.message_id r.name_by_message_id ≢ none)))

-- What a registration that succeeds has tested, and why one fails.
pub register_schema-cases :
    (r : SchemaRegistry) (s : SchemaDef)
    → (((register_schema r s).0 ≢ ok) × ((register_schema r s).1 ≡ r) × Refusable r s)
      ⊎ ((register_schema r s ≡ (ok, registered r s))
          × (find s.schema_name r.schemas_by_name ≡ none)
          × (find s.message_id r.name_by_message_id ≡ none))
unfolding register_schema
register_schema-cases r s = ground arith

module _ (r : SchemaRegistry) (s : SchemaDef) (agrees : Agrees r)
    (new_name : find s.schema_name r.schemas_by_name ≡ none)
    (new_id : find s.message_id r.name_by_message_id ≡ none) where
  laid_out-absent : find s.schema_name r.layouts_by_name ≡ none
  laid_out-absent = agrees.laid_out s.schema_name ∙ ap (Option.map build_packet_layout) new_name

  compiled-absent : find s.schema_name r.fast_codecs_by_name ≡ none
  compiled-absent = agrees.compiled s.schema_name ∙ ap (Option.map fast_codec) new_name

  find_name :
      (n : Text)
      → find n (registered r s).schemas_by_name
        ≡ (if text_eq s.schema_name n then some s else find n r.schemas_by_name)
  find_name n = find-insert s.schema_name n s r.schemas_by_name new_name

  find_id :
      (i : ℕ)
      → find i (registered r s).name_by_message_id
        ≡ (if s.message_id == i then some s.schema_name else find i r.name_by_message_id)
  find_id i = find-insert s.message_id i s.schema_name r.name_by_message_id new_id

  map_if :
      {B : Type 0} (f : SchemaDef → B) (n : Text) (m : List (Text × B))
      → find s.schema_name m ≡ none
      → find n m ≡ Option.map f (find n r.schemas_by_name)
      → find n (insert s.schema_name (f s) m)
        ≡ Option.map f (find n (registered r s).schemas_by_name)
  map_if f n m absent h = ground (arith, h, find_name n, find-insert s.schema_name n (f s) m absent)

  registered-named :
      (n : Text) (t : SchemaDef)
      → find n (registered r s).schemas_by_name ≡ some t
      → (t.schema_name ≡ n) × (find t.message_id (registered r s).name_by_message_id ≡ some n)
  registered-named n t h = ground (
    arith,
    find_name n,
    find_id t.message_id,
    text_eq_iff s.schema_name n,
    agrees.named n t,
    new_id,
  )

  registered-identified :
      (i : ℕ) (n : Text)
      → find i (registered r s).name_by_message_id ≡ some n
      → (t : SchemaDef) × (find n (registered r s).schemas_by_name ≡ some t) × (t.message_id ≡ i)
  registered-identified i n h = elim (Bool-cases (s.message_id == i)) [
    | inl e ↦ (s, ground (arith, find_name n, find_id i, text_eq_iff s.schema_name n), ground arith)
    | inr e ↦
        let old = agrees.identified i n (ground (arith, find_id i)) in
        (old.0, ground (arith, find_name n, text_eq_iff s.schema_name n, old.1, new_name), old.2)
  ]

  pub registered-Agrees : Agrees (registered r s)
  registered-Agrees = record {
    named = registered-named;
    identified = registered-identified;
    laid_out =
        λ n. map_if build_packet_layout n r.layouts_by_name laid_out-absent (agrees.laid_out n);
    compiled = λ n. map_if fast_codec n r.fast_codecs_by_name compiled-absent (agrees.compiled n);
  }
