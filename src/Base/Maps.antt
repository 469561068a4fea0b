-- ===== src/Base/Maps.antt =====
-- `std::unordered_map` as an association list over a Boolean test of keys.
use mathlib.Core.Path.{◌≡◌, refl}
use mathlib.Core.Logic.{◌↔◌}
use mathlib.Core.Bool.{Bool, true}
use mathlib.Core.List.{List, [], ◌∷◌}
use mathlib.Core.Option.{Option, none, some}
use native.Mathlib.Omega.{arith}
use keydrop.Base.Tests.{if◌then◌else◌}

-- A test of keys.
pub record Key {ℓ} (K : Type ℓ) : Type ℓ where
  pub same : K → K → Bool
  pub same_iff : (a b : K) → (same a b ≡ true) ↔ (a ≡ b)

module _ {ℓ κ} {K : Type ℓ} {V : Type κ} ⦃key : Key K⦄ where
  unfoldable pub find : K → List (K × V) → Option V
  find k [] = none
  find k ((j, v) ∷ m) = if key.same j k then some v else find k m

  -- `insert` and `emplace`: a key that is there keeps its value.
  unfoldable pub insert : K → V → List (K × V) → List (K × V)
  unfolding find
  insert k v m = elim (find k m) [ none ↦ (k, v) ∷ m | some old ↦ m ]

  -- `map[key] = value`
  unfoldable pub assign : K → V → List (K × V) → List (K × V)
  assign k v [] = (k, v) ∷ []
  assign k v ((j, w) ∷ m) = if key.same j k then (j, v) ∷ m else (j, w) ∷ assign k v m

  -- A key stands once in a map, so that all its entries are the one that goes.
  unfoldable pub erase : K → List (K × V) → List (K × V)
  erase k [] = []
  erase k ((j, w) ∷ m) = let rest = erase k m in if key.same j k then rest else (j, w) ∷ rest

  pub find-erase :
      (k j : K) (m : List (K × V)) → find j (erase k m) ≡ (if key.same k j then none else find j m)
  unfolding find erase
  find-erase k j [] = ground arith
  find-erase k j ((i, w) ∷ m) =
      ground (arith, key.same_iff i k, key.same_iff i j, key.same_iff k j, find-erase k j m)

  pub find-insert :
      (k j : K) (v : V) (m : List (K × V))
      → find k m ≡ none
      → find j (insert k v m) ≡ (if key.same k j then some v else find j m)
  unfolding find insert
  find-insert k j v m absent = ground arith

  pub find-assign :
      (k j : K) (v : V) (m : List (K × V))
      → find j (assign k v m) ≡ (if key.same k j then some v else find j m)
  unfolding find assign
  find-assign k j v [] = refl
  find-assign k j v ((i, w) ∷ m) =
      ground (arith, key.same_iff i k, key.same_iff i j, key.same_iff k j, find-assign k j v m)
