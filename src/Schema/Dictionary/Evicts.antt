-- ===== src/Schema/Dictionary/Evicts.antt =====
-- What `evict` leaves of the dictionary.
use keydrop.Base.{
  ◌==◌, ◌⊎◌, ◌++◌, List, [], ◌∷◌, All, ap, ◌∙◌, Bool-cases, ℕ, ◌≡◌, ◌≢◌, ◌↔◌, inl, inr, refl, arith,
  Option-cases, Bool, true, false, none, some, Text, text_key, number_key, find, find-erase,
}
use mathlib.Core.Path.{subst}
use keydrop.Schema.Dictionary.{AdaptiveDictionary, without, evict, forget}
use keydrop.Schema.Dictionary.Inverse.{Inverse, without-Inverse}

-- The first place of the id in the order is taken out of it; if it has none, the order stays.
abbrev pub Forgotten : ℕ → List ℕ → List ℕ → Type 0
Forgotten id before after =
    ((front : List ℕ) × (back : List ℕ) × (before ≡ front ++ (id ∷ back))
      × (after ≡ front ++ back)
      × All (λ x. x ≢ id) front)
    ⊎ (All (λ x. x ≢ id) before × (after ≡ before))

forget-Forgotten : (id : ℕ) (order : List ℕ) → Forgotten id order (forget id order)
unfolding forget
forget-Forgotten id [] = inr (tt, refl)
forget-Forgotten id (x ∷ order) = elim (Bool-cases (x == id)) [
  | inl e ↦ inl ([], order, ground (arith, e), ground (arith, e), tt)
  | inr e ↦
      let other : x ≢ id = ground (arith, e) in
      let skip : forget id (x ∷ order) ≡ x ∷ forget id order = ground (arith, e) in
      elim (forget-Forgotten id order) [
        | inl (front, back, split, rest, each) ↦
            inl (x ∷ front, back, ap (λ l. x ∷ l) split, skip ∙ ap (λ l. x ∷ l) rest, (other, each))
        | inr (each, same) ↦ inr ((other, each), skip ∙ ap (λ l. x ∷ l) same)
      ]
]

-- The dictionary, whether or not the id was known, after it was evicted.
abbrev pub Dropped : AdaptiveDictionary → ℕ → Bool × AdaptiveDictionary → Type 0
Dropped d id (done, after) =
    Inverse after
    × ((done ≡ true) ↔ (find id d.value_by_id ≢ none))
    × (find id after.value_by_id ≡ none)
    × ((value : Text) → find value after.id_by_value ≢ some id)
    × (done ≡ true → Forgotten id d.insertion_order after.insertion_order)
    × (done ≡ false → after ≡ d)
    × ((other : ℕ) → other ≢ id → find other after.value_by_id ≡ find other d.value_by_id)

module _ (d : AdaptiveDictionary) (id : ℕ) (inverse : Inverse d) where
  unknown-Dropped : find id d.value_by_id ≡ none → Dropped d id (false, d)
  unknown-Dropped unknown = (
    inverse,
    ((λ h. absurd (ground (arith, h))), (λ h. absurd (h unknown))),
    unknown,
    (λ value h. absurd (ground (arith, inverse.value_of value id h, unknown))),
    (λ h. absurd (ground (arith, h))),
    (λ h. refl),
    λ other ne. refl,
  )

  known-Dropped :
      (value : Text)
      → find id d.value_by_id ≡ some value
      → Dropped d id
          (true, record (without d id value) { insertion_order = forget id d.insertion_order })
  known-Dropped value known =
      let kept = without-Inverse d inverse id value known in
      let gone : find id (without d id value).value_by_id ≡ none =
        ground (arith, find-erase id id d.value_by_id) in
      (
        record { value_of = kept.value_of; id_of = kept.id_of },
        ((λ h e. absurd (ground (arith, known, e))), (λ h. refl)),
        gone,
        (λ v h. absurd (ground (arith, kept.value_of v id h, gone))),
        (λ h. forget-Forgotten id d.insertion_order),
        (λ h. absurd (ground (arith, h))),
        λ other ne. ground (arith, find-erase id other d.value_by_id, ne),
      )

-- Where the maps are inverse, evicting an id keeps them so and leaves every other id, whether this
-- one was known or not, and reports whether it was. Afterwards the id has no value and no value has
-- the id; if it was known, its first place in the order, if it has one, is taken out, and the rest
-- of the order stays; if not, the dictionary stays as it was.
pub evict-Inverse : (d : AdaptiveDictionary) (id : ℕ) → Inverse d → Dropped d id (evict d id)
unfolding evict
evict-Inverse d id inverse = elim (Option-cases (find id d.value_by_id)) [
  | inl unknown ↦
      subst (Dropped d id) {x = (false, d)} {y = evict d id} (ground (arith, unknown))
        (unknown-Dropped d id inverse unknown)
  | inr (value, known) ↦
      subst (Dropped d id)
        {x = (true, record (without d id value) { insertion_order = forget id d.insertion_order })}
        {y = evict d id} (ground (arith, known)) (known-Dropped d id inverse value known)
]
