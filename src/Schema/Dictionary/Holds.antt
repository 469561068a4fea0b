-- ===== src/Schema/Dictionary/Holds.antt =====
-- The operations of the dictionary keep the order of its ids.
use keydrop.Base.{ℕ, ◌+◌, ◌≤◌, ◌≡◌, ◌≢◌, ap, ◌∙◌, inl, inr, arith, Bool-cases, Option-cases, leb}
use keydrop.Base.{
  List, [], ◌∷◌, ◌++◌, none, length, All, Text, text_key, number_key, Key, find, assign,
  find-assign, length-append,
}
use mathlib.Core.Path.{subst}
use keydrop.Schema.Dictionary.{
  AdaptiveDictionary, entered, make_room, size, evict_oldest_if_needed, create_or_get,
}
use keydrop.Schema.Dictionary.Inverse.{entered-Inverse}
use keydrop.Schema.Dictionary.Keeps.{
  make_room-Roomy, create_or_get-there, create_or_get-full, create_or_get-entered,
}
use keydrop.Schema.Dictionary.Shrinks.{Ordered, Held, order-cases, evict_oldest-Rounds}

length-assign_le {ℓ κ} :
    {K : Type ℓ} {V : Type κ} ⦃key : Key K⦄ (k : K) (v : V) (m : List (K × V))
    → length (assign k v m) ≤ length m + 1
unfolding assign
length-assign_le k v [] = omega arith
length-assign_le k v ((j, w) ∷ m) = ground (arith, length-assign_le k v m)

-- An id that is not known goes to the end of the order.
apart-end :
    (id next : ℕ) (order : List ℕ)
    → next ≢ id
    → All (λ other. other ≢ id) order
    → All (λ other. other ≢ id) (order ++ (next ∷ []))
apart-end id next [] ne h = (ne, tt)
apart-end id next (x ∷ order) ne (hx, h) = (hx, apart-end id next order ne h)

Ordered-end :
    (next : ℕ) (value : Text) (order : List ℕ) (values : List (ℕ × Text))
    → find next values ≡ none
    → Ordered order values
    → Ordered (order ++ (next ∷ [])) (assign next value values)
Ordered-end next value [] values unused h =
    ((value, ground (arith, find-assign next next value values)), tt, tt)
Ordered-end next value (id ∷ order) values unused ((v, known), apart, h) =
    let ne : next ≢ id = λ e. absurd (ground (arith, ap (λ i. find i values) e, unused, known)) in
    (
      (v, ground (arith, find-assign next id value values, known, ne)),
      apart-end id next order ne apart,
      Ordered-end next value order values unused h,
    )

module _ (d : AdaptiveDictionary) (value : Text) where
  entered-Held :
      Held d
      → find value d.id_by_value ≡ none
      → find d.next_id d.value_by_id ≡ none
      → Held (entered d value)
  entered-Held held new_value new_id = record {
    inverse = entered-Inverse d held.inverse value new_value new_id;
    ordered = Ordered-end d.next_id value d.insertion_order d.value_by_id new_id held.ordered;
    enough = omega (
      arith,
      held.enough,
      length-assign_le value d.next_id d.id_by_value,
      length-append d.insertion_order (d.next_id ∷ []),
    );
  }

  evict_oldest-Held : Held d → Held (evict_oldest_if_needed d)
  evict_oldest-Held held = elim (order-cases d.insertion_order) [
    | inl none_left ↦
        subst Held {x = d} {y = evict_oldest_if_needed d}
          (unfold evict_oldest_if_needed in ground (arith, none_left)) held
    | inr (id, order, first) ↦ (evict_oldest-Rounds d id order held first).0
  ]

  make_room-Held : Held d → Held (make_room d)
  unfolding make_room
  make_room-Held held = elim (Bool-cases (leb d.config.max_entries (size d))) [
    | inl e ↦ rw e (evict_oldest-Held held)
    | inr e ↦ rw e held
  ]

-- Where the next id is not in use, `create_or_get` keeps the maps inverse, and the order with the
-- known ids, once each and as many as there are entries.
pub create_or_get-Held :
    (d : AdaptiveDictionary) (value : Text)
    → Held d
    → find d.next_id d.value_by_id ≡ none
    → Held (create_or_get d value).1
create_or_get-Held d value held unused =
    let roomy = make_room-Roomy d held.inverse in
    let room = make_room-Held d value held in
    elim (Option-cases (find value d.id_by_value)) [
      | inr (id, there) ↦ rw (create_or_get-there d value id there) held
      | inl new ↦ elim (Bool-cases (leb (make_room d).config.max_entries (size (make_room d)))) [
        | inl full ↦ rw (create_or_get-full d value new full) room
        | inr space ↦ rw (create_or_get-entered d value new space) (
            entered-Held (make_room d) value room (roomy.no_value value new) (
              ap (λ i. find i (make_room d).value_by_id) roomy.same_next
              ∙ roomy.no_id d.next_id unused))
      ]
    ]
