-- ===== src/Schema/Dictionary/Keeps.antt =====
-- The operations of the dictionary on maps that are inverse.
use keydrop.Base.{ℕ, ◌≡◌, ◌↔◌, ◌⊎◌, inl, inr, refl, arith, Option-cases, Bool-cases, true, false}
use keydrop.Base.{
  List, [], ◌∷◌, none, some, leb, if◌then◌else◌, ◌==◌, Text, text_eq, text_eq_iff, text_key,
  number_key, find, find-assign, find-erase, assign, erase,
}
use mathlib.Core.Path.{subst, sym}
use keydrop.Schema.Dictionary.{
  AdaptiveDictionary, ok, full, answer, without, entered, make_room, evict_oldest_if_needed, size,
}
use keydrop.Schema.Dictionary.{create_or_get, lookup_id, lookup_value, update}
use keydrop.Schema.Dictionary.Inverse.{Inverse, without-Inverse, entered-Inverse}

abbrev updated : AdaptiveDictionary → ℕ → Text → Text → AdaptiveDictionary
updated d id old value = record d {
  id_by_value = assign value id (erase old d.id_by_value);
  value_by_id = assign id value d.value_by_id;
}

module _ (d : AdaptiveDictionary) (id : ℕ) (old value : Text) (inverse : Inverse d)
    (known : find id d.value_by_id ≡ some old) where
  find_id :
      (w : Text)
      → find w (updated d id old value).id_by_value ≡ (
          if text_eq value w then some id else if text_eq old w then none else find w d.id_by_value)
  find_id w =
      ground
        (arith, find-assign value w id (erase old d.id_by_value), find-erase old w d.id_by_value)

  find_value :
      (j : ℕ)
      → find j (updated d id old value).value_by_id
        ≡ (if id == j then some value else find j d.value_by_id)
  find_value j = find-assign id j value d.value_by_id

  updated-Inverse :
      ((other : ℕ) → find value d.id_by_value ≡ some other → other ≡ id)
      → Inverse (updated d id old value)
  updated-Inverse free = record {
    value_of = λ w j h. ground (
      arith,
      find_id w,
      find_value j,
      text_eq_iff value w,
      text_eq_iff old w,
      inverse.value_of w j,
      known,
    );
    id_of = λ w j h. ground (
      arith,
      find_id w,
      find_value j,
      text_eq_iff value w,
      text_eq_iff old w,
      inverse.id_of w j,
      inverse.id_of old id,
      known,
      free j,
    );
  }

  Inverse-free :
      Inverse (updated d id old value)
      → (other : ℕ) → find value d.id_by_value ≡ some other
      → other ≡ id
  Inverse-free after other h = ground (
    arith,
    find_id value,
    find_value other,
    text_eq_iff value value,
    inverse.value_of value other,
    after.id_of value other,
  )

update-known :
    (d : AdaptiveDictionary) (id : ℕ) (old value : Text)
    → find id d.value_by_id ≡ some old
    → update d id value ≡ (true, updated d id old value)
unfolding update
update-known d id old value known = ground (arith, known)

-- An id that is there gets a new value, and the maps stay inverse exactly where no other id has that
-- value: else the other id is left with a value that no longer leads to it.
pub update-Inverse_iff :
    (d : AdaptiveDictionary) (id : ℕ) (old value : Text)
    → Inverse d
    → find id d.value_by_id ≡ some old
    → ((update d id value).0 ≡ true)
      × (Inverse (update d id value).1
          ↔ ((other : ℕ) → find value d.id_by_value ≡ some other → other ≡ id))
update-Inverse_iff d id old value inverse known = rw (update-known d id old value known) (
  refl,
  (Inverse-free d id old value inverse known, updated-Inverse d id old value inverse known),
)

-- The ways in which the oldest entry goes.
data Evicted (d : AdaptiveDictionary) : AdaptiveDictionary → Type 0 where
  same : Evicted d d
  reordered : (order : List ℕ) → Evicted d (record d { insertion_order = order })
  lost :
      (i : ℕ) (v : Text) (order : List ℕ)
      → find i d.value_by_id ≡ some v
      → Evicted d (record (without d i v) { insertion_order = order })

evict_oldest-Evicted :
    (d : AdaptiveDictionary) (order : List ℕ)
    → d.insertion_order ≡ order
    → Evicted d (evict_oldest_if_needed d)
unfolding evict_oldest_if_needed
evict_oldest-Evicted d [] e = subst (Evicted d) (ground (arith, e)) same
evict_oldest-Evicted d (oldest ∷ order) e = elim (Option-cases (find oldest d.value_by_id)) [
  | inl h ↦ subst (Evicted d) (ground (arith, e, h)) (reordered order)
  | inr (v, h) ↦ subst (Evicted d) (ground (arith, e, h)) (lost oldest v order h)
]

-- What making room leaves: maps that are inverse, the next id, and no entry that was not there.
pub record Roomy (d r : AdaptiveDictionary) : Type 0 where
  pub inverse : Inverse r
  pub same_next : r.next_id ≡ d.next_id
  pub no_value : (v : Text) → find v d.id_by_value ≡ none → find v r.id_by_value ≡ none
  pub no_id : (i : ℕ) → find i d.value_by_id ≡ none → find i r.value_by_id ≡ none

Evicted-Roomy : (d r : AdaptiveDictionary) → Inverse d → Evicted d r → Roomy d r
Evicted-Roomy d r inverse same = record {
  inverse = inverse;
  same_next = refl;
  no_value = λ v h. h;
  no_id = λ i h. h;
}
Evicted-Roomy d r inverse (reordered order) = record {
  inverse = record { value_of = inverse.value_of; id_of = inverse.id_of };
  same_next = refl;
  no_value = λ v h. h;
  no_id = λ i h. h;
}
Evicted-Roomy d r inverse (lost i v order found) =
    let less = without-Inverse d inverse i v found in
    record {
      inverse = record { value_of = less.value_of; id_of = less.id_of };
      same_next = refl;
      no_value = λ w h. ground (arith, find-erase v w d.id_by_value);
      no_id = λ j h. ground (arith, find-erase i j d.value_by_id);
    }

pub make_room-Roomy : (d : AdaptiveDictionary) → Inverse d → Roomy d (make_room d)
unfolding make_room
make_room-Roomy d inverse = elim (Bool-cases (leb d.config.max_entries (size d))) [
  | inl e ↦ rw e (Evicted-Roomy d _ inverse (evict_oldest-Evicted d d.insertion_order refl))
  | inr e ↦ rw e (Evicted-Roomy d d inverse same)
]

module _ (d : AdaptiveDictionary) (value : Text) where
  pub create_or_get-there :
      (id : ℕ)
      → find value d.id_by_value ≡ some id
      → create_or_get d value ≡ (answer ok id value, d)
  unfolding create_or_get
  create_or_get-there id e = ground (arith, e)

  pub create_or_get-full :
      find value d.id_by_value ≡ none
      → leb (make_room d).config.max_entries (size (make_room d)) ≡ true
      → create_or_get d value ≡ (answer full 0 value, make_room d)
  unfolding create_or_get
  create_or_get-full e f = ground (arith, e, f)

  pub create_or_get-entered :
      find value d.id_by_value ≡ none
      → leb (make_room d).config.max_entries (size (make_room d)) ≡ false
      → create_or_get d value ≡ (answer ok (make_room d).next_id value, entered (make_room d) value)
  unfolding create_or_get
  create_or_get-entered e f = ground (arith, e, f)

-- The value and the id lead to each other.
abbrev pub Paired : AdaptiveDictionary → ℕ → Text → Type 0
Paired d id value =
    (lookup_id d value ≡ answer ok id value) × (lookup_value d id ≡ answer ok id value)

find-Paired :
    (d : AdaptiveDictionary) (id : ℕ) (value : Text)
    → find value d.id_by_value ≡ some id
    → find id d.value_by_id ≡ some value
    → Paired d id value
unfolding lookup_id lookup_value
find-Paired d id value e f = (ground (arith, e), ground (arith, f))

-- Where the next id is not in use, a value gets an id, or the dictionary reports that it is full;
-- the maps stay inverse, and with an id the value and the id lead to each other.
pub create_or_get-Inverse :
    (d : AdaptiveDictionary) (value : Text)
    → Inverse d
    → find d.next_id d.value_by_id ≡ none
    → Inverse (create_or_get d value).1
      × (((create_or_get d value).0 ≡ answer full 0 value)
          ⊎ ((id : ℕ) × ((create_or_get d value).0 ≡ answer ok id value)
              × Paired (create_or_get d value).1 id value))
create_or_get-Inverse d value inverse unused = elim (Option-cases (find value d.id_by_value)) [
  | inr (id, e) ↦
      rw (create_or_get-there d value id e)
        (inverse, inr (id, refl, find-Paired d id value e (inverse.value_of value id e)))
  | inl e ↦
      let r = make_room d in
      let roomy = make_room-Roomy d inverse in
      let free : find r.next_id r.value_by_id ≡ none =
        subst (λ i. find i r.value_by_id ≡ none) (sym roomy.same_next)
          (roomy.no_id d.next_id unused) in
      let after = entered-Inverse r roomy.inverse value (roomy.no_value value e) free in
      elim (Bool-cases (leb r.config.max_entries (size r))) [
        | inl f ↦ rw (create_or_get-full d value e f) (roomy.inverse, inl refl)
        | inr f ↦
            let leads : find value (entered r value).id_by_value ≡ some r.next_id =
              ground
                (arith, find-assign value value r.next_id r.id_by_value, text_eq_iff value value) in
            rw (create_or_get-entered d value e f) (
              after,
              inr (
                r.next_id,
                refl,
                find-Paired (entered r value) r.next_id value leads
                    (after.value_of value r.next_id leads),
              ),
            )
      ]
]
