-- ===== src/Base/Throws.antt =====
-- What a call of the C++ code gives: a value, or the exception `std::out_of_range`, the only one
-- that the modelled code throws.
pub data Result {ℓ} (A : Type ℓ) : Type ℓ where
  ok : A → Result A
  out_of_range : Result A

infixl 5 ◌>>=◌
abbrev pub ◌>>=◌ {ℓ κ} : {A : Type ℓ} {B : Type κ} → Result A → (A → Result B) → Result B
ok a >>= f = f a
out_of_range >>= f = out_of_range
