-- ===== src/Schema/Dictionary.antt =====
-- src/schema/adaptive_dictionary.cpp: numbers of 16 bits that stand for strings which repeat.
pub mod Evicts
pub mod Shrinks
pub mod Inverse
pub mod Keeps
pub mod Holds
use keydrop.Base.{
  ℕ, ◌+◌, ◌%◌, ◌^◌, Bool, true, false, List, [], ◌∷◌, ◌++◌, Option, none, some, length, leb, ltb,
  zero, suc,
}
use keydrop.Base.{◌==◌, if◌then◌else◌, Text, text_key, number_key, find, assign, erase}

pub record AdaptiveDictionaryConfig : Type 0 where
  pub enabled : Bool
  pub enable_string_values : Bool
  pub max_entries : ℕ

pub data AdaptiveDictionaryCode : Type 0 where
  ok miss full : AdaptiveDictionaryCode

pub record AdaptiveDictionaryResult : Type 0 where
  pub code : AdaptiveDictionaryCode
  pub id : ℕ
  pub value : Text

pub record AdaptiveDictionary : Type 0 where
  pub config : AdaptiveDictionaryConfig
  pub next_id : ℕ
  pub id_by_value : List (Text × ℕ)
  pub value_by_id : List (ℕ × Text)
  pub insertion_order : List ℕ

abbrev pub answer : AdaptiveDictionaryCode → ℕ → Text → AdaptiveDictionaryResult
answer code id value = record { code = code; id = id; value = value }

unfoldable pub size : AdaptiveDictionary → ℕ
size d = length d.id_by_value

-- Both maps without the id and its value.
abbrev pub without : AdaptiveDictionary → ℕ → Text → AdaptiveDictionary
without d id value = record d {
  id_by_value = erase value d.id_by_value;
  value_by_id = erase id d.value_by_id;
}

unfoldable pub evict_oldest_if_needed : AdaptiveDictionary → AdaptiveDictionary
evict_oldest_if_needed d = elim d.insertion_order [
  | [] ↦ d
  | oldest ∷ order ↦ elim (find oldest d.value_by_id) [
    | none ↦ record d { insertion_order = order }
    | some value ↦ record (without d oldest value) { insertion_order = order }
  ]
]

-- The loop of `configure`, on fuel; `none` is a loop that goes on.
unfoldable pub shrink : ℕ → AdaptiveDictionary → Option AdaptiveDictionary
unfolding evict_oldest_if_needed size
shrink zero d = if ltb d.config.max_entries (size d) then none else some d
shrink (suc fuel) d =
    let rest = shrink fuel (evict_oldest_if_needed d) in
    if ltb d.config.max_entries (size d) then rest else some d

-- Every round takes an id off the order, so that its length is enough.
unfoldable pub configure : AdaptiveDictionary → AdaptiveDictionaryConfig → Option AdaptiveDictionary
unfolding shrink
configure d config = shrink (length d.insertion_order) (record d {
  config = record config {
    max_entries = if config.max_entries == 0 then 1 else config.max_entries;
  };
})

-- The new entry, under the next id, which wraps at 16 bits.
abbrev pub entered : AdaptiveDictionary → Text → AdaptiveDictionary
entered d value = record d {
  next_id = (d.next_id + 1) % 2 ^ 16;
  id_by_value = assign value d.next_id d.id_by_value;
  value_by_id = assign d.next_id value d.value_by_id;
  insertion_order = d.insertion_order ++ (d.next_id ∷ []);
}

-- Where the dictionary is as large as it may be, the oldest entry goes first.
unfoldable pub make_room : AdaptiveDictionary → AdaptiveDictionary
make_room d = if leb d.config.max_entries (size d) then evict_oldest_if_needed d else d

unfoldable pub create_or_get :
    AdaptiveDictionary → Text → AdaptiveDictionaryResult × AdaptiveDictionary
create_or_get d value = elim (find value d.id_by_value) [
  | some id ↦ (answer ok id value, d)
  | none ↦
      let roomy = make_room d in
      if leb roomy.config.max_entries (size roomy)
      then (answer full 0 value, roomy)
      else (answer ok roomy.next_id value, entered roomy value)
]

unfoldable pub lookup_id : AdaptiveDictionary → Text → AdaptiveDictionaryResult
lookup_id d value = elim (find value d.id_by_value) [
  | none ↦ answer miss 0 value
  | some id ↦ answer ok id value
]

unfoldable pub lookup_value : AdaptiveDictionary → ℕ → AdaptiveDictionaryResult
lookup_value d id = elim (find id d.value_by_id) [
  | none ↦ answer miss id []
  | some value ↦ answer ok id value
]

unfoldable pub update : AdaptiveDictionary → ℕ → Text → Bool × AdaptiveDictionary
update d id value = elim (find id d.value_by_id) [
  | none ↦ (false, d)
  | some old ↦ (
    true,
    record d {
      id_by_value = assign value id (erase old d.id_by_value);
      value_by_id = assign id value d.value_by_id;
    },
  )
]

-- The first place of the id in the order goes.
unfoldable pub forget : ℕ → List ℕ → List ℕ
forget id [] = []
forget id (x ∷ order) = let rest = forget id order in if x == id then order else x ∷ rest

unfoldable pub evict : AdaptiveDictionary → ℕ → Bool × AdaptiveDictionary
evict d id = elim (find id d.value_by_id) [
  | none ↦ (false, d)
  | some value ↦
      (true, record (without d id value) { insertion_order = forget id d.insertion_order })
]

unfoldable pub reset : AdaptiveDictionary → AdaptiveDictionary
reset d = record d { id_by_value = []; value_by_id = []; insertion_order = []; next_id = 1 }
