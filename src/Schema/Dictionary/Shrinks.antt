-- ===== src/Schema/Dictionary/Shrinks.antt =====
-- `configure` evicts until the dictionary is small enough.
use keydrop.Base.{
  ℕ, zero, suc, ◌≤◌, ◌<◌, ◌≡◌, ◌≢◌, refl, ap, ◌∙◌, ◌⊎◌, inl, inr, arith, ltb, ◌==◌, if◌then◌else◌,
  Bool-cases,
}
use keydrop.Base.{
  List, [], ◌∷◌, Option, some, length, All, Text, text_key, number_key, Key, find, erase,
  find-erase,
}
use mathlib.Core.Path.{subst}
use keydrop.Schema.Dictionary.{
  AdaptiveDictionary, AdaptiveDictionaryConfig, without, size, evict_oldest_if_needed, shrink,
  configure,
}
use keydrop.Schema.Dictionary.Inverse.{Inverse, without-Inverse}

module _ {ℓ κ} {K : Type ℓ} {V : Type κ} ⦃key : Key K⦄ where
  length-erase_le : (k : K) (m : List (K × V)) → length (erase k m) ≤ length m
  unfolding erase
  length-erase_le k [] = omega arith
  length-erase_le k ((j, w) ∷ m) = ground (arith, length-erase_le k m)

  length-erase :
      (k : K) (v : V) (m : List (K × V)) → find k m ≡ some v → length (erase k m) < length m
  unfolding erase find
  length-erase k v [] h = absurd (ground arith)
  length-erase k v ((j, w) ∷ m) h = ground (arith, length-erase k v m, length-erase_le k m)

-- The ids of an order are known, and each stands there once.
abbrev pub Ordered : List ℕ → List (ℕ × Text) → Type 0
Ordered [] values = Unit {0}
Ordered (id ∷ order) values =
    ((v : Text) × (find id values ≡ some v))
    × All (λ other. other ≢ id) order
    × Ordered order values

Ordered-erase :
    (id : ℕ) (order : List ℕ) (values : List (ℕ × Text))
    → All (λ other. other ≢ id) order
    → Ordered order values
    → Ordered order (erase id values)
Ordered-erase id [] values apart h = tt
Ordered-erase id (x ∷ order) values (ne, apart) ((v, known), once, h) = (
  (v, ground (arith, find-erase id x values, known, ne)),
  once,
  Ordered-erase id order values apart h,
)

-- The maps are inverse, the order holds known ids once each, and as many as there are entries.
pub record Held (d : AdaptiveDictionary) : Type 0 where
  pub inverse : Inverse d
  pub ordered : Ordered d.insertion_order d.value_by_id
  pub enough : length d.id_by_value ≤ length d.insertion_order

evict_oldest-known :
    (d : AdaptiveDictionary) (id : ℕ) (order : List ℕ) (v : Text)
    → d.insertion_order ≡ id ∷ order
    → find id d.value_by_id ≡ some v
    → record (without d id v) { insertion_order = order } ≡ evict_oldest_if_needed d
unfolding evict_oldest_if_needed
evict_oldest-known d id order v first known = ground (arith, first, known)

-- One round keeps this, with one id less.
abbrev Rounds : AdaptiveDictionary → List ℕ → AdaptiveDictionary → Type 0
Rounds d order after = Held after × (after.insertion_order ≡ order) × (after.config ≡ d.config)

pub evict_oldest-Rounds :
    (d : AdaptiveDictionary) (id : ℕ) (order : List ℕ)
    → Held d
    → d.insertion_order ≡ id ∷ order
    → Rounds d order (evict_oldest_if_needed d)
evict_oldest-Rounds d id order held first =
    let ((v, known), apart, rest) = subst (λ o. Ordered o d.value_by_id) first held.ordered in
    let less = without-Inverse d held.inverse id v known in
    let shorter = length-erase v id d.id_by_value (held.inverse.id_of v id known) in
    subst (Rounds d order) (evict_oldest-known d id order v first known) (
      record {
        inverse = record { value_of = less.value_of; id_of = less.id_of };
        ordered = Ordered-erase id order d.value_by_id apart rest;
        enough = omega (arith, shorter, held.enough, ap length first);
      },
      refl,
      refl,
    )

-- The loop has ended: the dictionary is small enough, and holds together.
abbrev Small : AdaptiveDictionary → Option AdaptiveDictionary → Type 0
Small d result =
    (after : AdaptiveDictionary) × (result ≡ some after)
    × (size after ≤ d.config.max_entries)
    × Held after
    × (after.config ≡ d.config)

pub order-cases :
    (order : List ℕ) → (order ≡ []) ⊎ ((id : ℕ) × (rest : List ℕ) × (order ≡ id ∷ rest))
order-cases [] = inl refl
order-cases (id ∷ rest) = inr (id, rest, refl)

shrink-Small :
    (fuel : ℕ) (d : AdaptiveDictionary)
    → Held d
    → length d.insertion_order ≤ fuel
    → Small d (shrink fuel d)
unfolding shrink size
shrink-Small zero d held fits =
    (d, ground (arith, held.enough, fits), omega (arith, held.enough, fits), held, refl)
shrink-Small (suc fuel) d held fits = elim (Bool-cases (ltb d.config.max_entries (size d))) [
  | inr small ↦ (d, ground (arith, small), ground (arith, small), held, refl)
  | inl large ↦ elim (order-cases d.insertion_order) [
    | inl none_left ↦ absurd (ground (arith, held.enough, large, ap length none_left))
    | inr (id, order, first) ↦
        let (held', order', config') = evict_oldest-Rounds d id order held first in
        let (after, run, small, holds, config) =
          shrink-Small fuel (evict_oldest_if_needed d) held'
            (omega (arith, ap length order', ap length first, fits)) in
        (
          after,
          ground (arith, large, run),
          omega (arith, small, ap (λ c. c.max_entries) config'),
          holds,
          config ∙ config',
        )
  ]
]

-- What the configuration allows, at least one entry.
abbrev pub allowed : AdaptiveDictionaryConfig → AdaptiveDictionaryConfig
allowed config = record config {
  max_entries = if config.max_entries == 0 then 1 else config.max_entries;
}

-- Where the maps are inverse and the order holds known ids, once each and as many as there are
-- entries, `configure` ends, with the new limit, which is at least one, and no more entries than it
-- allows, and the dictionary stays so.
pub configure-Held :
    (d : AdaptiveDictionary) (config : AdaptiveDictionaryConfig)
    → Held d
    → (after : AdaptiveDictionary) × (configure d config ≡ some after)
      × (size after ≤ (allowed config).max_entries)
      × Held after
      × (after.config ≡ allowed config)
unfolding configure
configure-Held d config held =
    shrink-Small (length d.insertion_order) (record d { config = allowed config })
      (record {
        inverse = record { value_of = held.inverse.value_of; id_of = held.inverse.id_of };
        ordered = held.ordered;
        enough = held.enough;
      })
      (omega arith)
