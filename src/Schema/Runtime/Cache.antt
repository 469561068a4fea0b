-- ===== src/Schema/Runtime/Cache.antt =====
-- The schema that `send` keeps from its last call is the one that the registry has.
use keydrop.Base.{
  ◌≡◌, refl, sym, ap, ◌∙◌, inl, inr, some, none, Option, Text, text_eq, text_eq_iff, text_key,
  number_key, Bool-cases, Option-cases, true, false, Bool, ◌⊎◌,
}
use mathlib.Core.Option
use mathlib.Core.Path.{subst}
use keydrop.Schema.Types.{SchemaDef}
use keydrop.Schema.Layout.{PacketLayout, build_packet_layout}
use keydrop.Schema.Registry
use keydrop.Schema.Registry.{
  SchemaRegistry, SchemaRegistryStatusCode, find_by_name, find_layout_by_name,
}
use keydrop.Schema.Registry.Agrees.{Agrees, register_schema-cases}
use keydrop.Schema.Registry.Registered.{register_schema-Registered, find_layout-find_by, Registered}
use keydrop.Schema.Validator.{is_accepted, validate_schema}
use keydrop.Schema.Runtime.{Outcome, done, failed, schema_not_found}
use keydrop.Schema.Runtime.State.{
  SchemaRuntime, register_schema, find_registered, from_cache, find_cached,
}

-- The registry's maps agree, and what is cached is the registry's, under the cached name.
pub record CacheAgrees (rt : SchemaRuntime) : Type 0 where
  pub agrees : Agrees rt.registry_
  pub cached :
      (s : SchemaDef) (l : PacketLayout)
      → rt.cached_ ≡ some (s, l)
      → (find_by_name rt.registry_ rt.cached_schema_name_ ≡ some s) × (l ≡ build_packet_layout s)

-- The runtime with another cache.
abbrev pub recached : SchemaRuntime → Text → Option (SchemaDef × PacketLayout) → SchemaRuntime
recached rt name entry = record rt { cached_schema_name_ = name; cached_ = entry }

pub some-eq {ℓ} : {A : Type ℓ} {x y : A} → some x ≡ some y → x ≡ y
some-eq e = cc

module _ (rt : SchemaRuntime) (name : Text) (h : CacheAgrees rt) where
  layout_of :
      find_layout_by_name rt.registry_ name
      ≡ Option.map build_packet_layout (find_by_name rt.registry_ name)
  layout_of = (find_layout-find_by rt.registry_ name 0 h.agrees).0

  find_registered-found :
      (s : SchemaDef)
      → find_by_name rt.registry_ name ≡ some s
      → find_registered rt name
        ≡ (done (s, build_packet_layout s), recached rt name (some (s, build_packet_layout s)))
  unfolding find_registered
  find_registered-found s e =
      let l : find_layout_by_name rt.registry_ name ≡ some (build_packet_layout s) =
        layout_of ∙ ap (Option.map build_packet_layout) e in
      rw (e, find_registered, l) refl

  find_registered-absent :
      find_by_name rt.registry_ name ≡ none
      → find_registered rt name ≡ (failed schema_not_found, rt)
  unfolding find_registered
  find_registered-absent e = rw (e, find_registered) refl

  remembered :
      (s t : SchemaDef) (l : PacketLayout)
      → find_by_name rt.registry_ name ≡ some s
      → ◌≡◌ {A = Option (SchemaDef × PacketLayout)} (some (s, build_packet_layout s)) (some (t, l))
      → (find_by_name rt.registry_ name ≡ some t) × (l ≡ build_packet_layout t)
  remembered s t l e same =
      let pair = some-eq {A = SchemaDef × PacketLayout} same in
      let first : s ≡ t = ap (λ x. x.0) pair in
      let second : build_packet_layout s ≡ l = ap (λ x. x.1) pair in
      (e ∙ ap some first, sym second ∙ ap build_packet_layout first)

  -- What a lookup gives, and that it leaves everything but the cache.
  abbrev pub Finds : Outcome (SchemaDef × PacketLayout) × SchemaRuntime → Type 0
  Finds r =
      ((s : SchemaDef) × (find_by_name rt.registry_ name ≡ some s)
        × (c : Text) × (entry : Option (SchemaDef × PacketLayout)) × (r
            ≡ (done (s, build_packet_layout s), recached rt c entry))
        × CacheAgrees (recached rt c entry))
      ⊎ ((find_by_name rt.registry_ name ≡ none) × (r ≡ (failed schema_not_found, rt)))

  find_registered-Finds : Finds (find_registered rt name)
  find_registered-Finds = elim (Option-cases (find_by_name rt.registry_ name)) [
    | inl absent ↦ inr (absent, find_registered-absent absent)
    | inr (s, e) ↦ inl (
      s,
      e,
      name,
      some (s, build_packet_layout s),
      find_registered-found s e,
      record { agrees = h.agrees; cached = λ t l same. remembered s t l e same },
    )
  ]

  from_cache-Finds :
      (entry : Option (SchemaDef × PacketLayout)) (same : Bool)
      → rt.cached_ ≡ entry
      → text_eq name rt.cached_schema_name_ ≡ same
      → Finds (from_cache rt name entry same)
  unfolding from_cache
  from_cache-Finds none same e t = find_registered-Finds
  from_cache-Finds (some c) false e t = find_registered-Finds
  from_cache-Finds (some (s, l)) true e t =
      let (found, built) = h.cached s l e in
      let named : find_by_name rt.registry_ name ≡ some s =
        ap (find_by_name rt.registry_) ((text_eq_iff name rt.cached_schema_name_).0 t) ∙ found in
      inl (s, named, rt.cached_schema_name_, rt.cached_, ap (λ x. (done (s, x), rt)) built, h)

  pub find_cached-Finds : Finds (find_cached rt name)
  unfolding find_cached
  find_cached-Finds = from_cache-Finds rt.cached_ (text_eq name rt.cached_schema_name_) refl refl

module _ (rt : SchemaRuntime) (name : Text) (h : CacheAgrees rt)
    (a : Outcome (SchemaDef × PacketLayout) × SchemaRuntime) where
  agreeing :
      (b : Outcome (SchemaDef × PacketLayout) × SchemaRuntime)
      → Finds rt name h a
      → Finds rt name h b
      → a.0 ≡ b.0
  agreeing b (inl (s, e, c, x, run, _)) (inl (t, e', c', x', run', _)) =
      ap (λ r. r.0) run
      ∙ ap (λ u. done (u, build_packet_layout u)) (some-eq (sym e ∙ e'))
      ∙ ap (λ r. r.0) (sym run')
  agreeing b (inl (s, e, c, x, run, _)) (inr (e', _)) = absurd (cc (e, e'))
  agreeing b (inr (e, _)) (inl (t, e', c, x, run, _)) = absurd (cc (e, e'))
  agreeing b (inr (e, run)) (inr (e', run')) = ap (λ r. r.0) run ∙ ap (λ r. r.0) (sym run')

  agreeing_after : Finds rt name h a → CacheAgrees a.1
  agreeing_after (inl (s, e, c, x, run, agrees)) = subst (λ r. CacheAgrees r.1) (sym run) agrees
  agreeing_after (inr (e, run)) = subst (λ r. CacheAgrees r.1) (sym run) h

-- The name of a schema that is registered was free.
new_name :
    (r : SchemaRegistry) (schema : SchemaDef)
    → (Registry.register_schema r schema).0 ≡ SchemaRegistryStatusCode.ok
    → find_by_name r schema.schema_name ≡ none
unfolding find_by_name
new_name r schema good = elim (register_schema-cases r schema) [
  | inl (bad, same, why) ↦ absurd (bad good)
  | inr (run, free, free_id) ↦ free
]

-- A registration that succeeds takes another name than those that are registered.
kept_names :
    (r r' : SchemaRegistry) (schema s : SchemaDef) (n : Text)
    → Registered r r' schema
    → find_by_name r schema.schema_name ≡ none
    → find_by_name r n ≡ some s
    → find_by_name r' n ≡ some s
kept_names r r' schema s n reg absent e = elim (Bool-cases (text_eq schema.schema_name n)) [
  | inl same ↦
      absurd (cc (absent, e, ap (find_by_name r) ((text_eq_iff schema.schema_name n).0 same)))
  | inr other ↦ reg.by_name n ∙ rw other e
]

-- A registration behind the validator, of a new schema.
registered-CacheAgrees :
    (rt : SchemaRuntime) (schema : SchemaDef)
    → CacheAgrees rt
    → CacheAgrees (record rt { registry_ = (Registry.register_schema rt.registry_ schema).1 })
registered-CacheAgrees rt schema h =
    let r = rt.registry_ in
    elim (register_schema-Registered r schema h.agrees) [
      | inl (bad, same, why) ↦ subst (λ x. CacheAgrees (record rt { registry_ = x })) (sym same) h
      | inr (good, reg) ↦ record {
        agrees = reg.agrees;
        cached = λ s l e. (
          kept_names r _ schema s rt.cached_schema_name_ reg (new_name r schema good)
              (h.cached s l e).0,
          (h.cached s l e).1,
        );
      }
    ]

register_schema-CacheAgrees :
    (rt : SchemaRuntime) (schema : SchemaDef)
    → CacheAgrees rt
    → CacheAgrees (register_schema rt schema).1
unfolding register_schema
register_schema-CacheAgrees rt schema h =
    elim (Bool-cases (is_accepted (validate_schema schema (some rt.registry_)))) [
      | inl accepted ↦ rw (accepted, register_schema) (registered-CacheAgrees rt schema h)
      | inr refused ↦ rw (refused, register_schema) h
    ]

-- Where what is cached is the registry's, `send` finds by its cache what the registry has under the
-- name, or finds nothing where that has nothing; so it would without the cache. What is cached stays
-- the registry's, and is so too behind `register_schema`, which leaves the cache.
pub find_cached-register_schema :
    (rt : SchemaRuntime) (name : Text) (schema : SchemaDef)
    → CacheAgrees rt
    → ((find_cached rt name).0 ≡ (find_registered rt name).0)
      × CacheAgrees (find_cached rt name).1
      × CacheAgrees (register_schema rt schema).1
find_cached-register_schema rt name schema h =
    let one = find_cached-Finds rt name h in
    let two = find_registered-Finds rt name h in
    (
      agreeing rt name h (find_cached rt name) (find_registered rt name) one two,
      agreeing_after rt name h (find_cached rt name) one,
      register_schema-CacheAgrees rt schema h,
    )
