-- ===== src/Base/Bitmap.antt =====
-- A bitmap as a list of bytes: `bitmap[i / 8] & (1 << i % 8)`, and setting a bit.
use Prim.Native.Nat.{ℕ, zero, suc, ◌/◌, ◌%◌, ◌^◌, ◌<◌, bit_and, bit_or}
use mathlib.Core.Path.{◌≡◌, refl, sym, ap, ◌∙◌}
use mathlib.Core.Logic.{◌≢◌}
use mathlib.Core.Bool.{Bool, true, false, not, ◌&&◌, ◌||◌}
use mathlib.Core.List.{List, [], ◌∷◌}
use native.Mathlib.Decide.{ℕ_discrete}
use native.Mathlib.Omega.{arith}
use keydrop.Base.Tests.{◌==◌}
use keydrop.Base.Lists.{length, get_or, set, length-set, replicate, All}
use keydrop.Base.Bytes.{IsByte}

unfoldable pub bit_of : ℕ → ℕ → Bool
bit_of b k = not (bit_and b (2 ^ k % 256) == 0)

unfoldable pub is_bit_set : List ℕ → ℕ → Bool
is_bit_set bitmap index = bit_of (get_or bitmap (index / 8) 0) (index % 8)

unfoldable pub set_bit : List ℕ → ℕ → List ℕ
set_bit bitmap index =
    set bitmap (index / 8) (bit_or (get_or bitmap (index / 8) 0) (2 ^ (index % 8) % 256) % 256)

-- The test of every number below a bound, from the bound down.
tested : (ℕ → Bool) → ℕ → Bool
tested test zero = true
tested test (suc top) = tested test top && test top

tested-each : (test : ℕ → Bool) (bound k : ℕ) → tested test bound ≡ true → k < bound → test k ≡ true
unfolding tested
tested-each test zero k e below = absurd (omega arith)
tested-each test (suc top) k e below = ground (arith, tested-each test top k)

same : Bool → Bool → Bool
same true b = b
same false b = not b

same→eq : (a b : Bool) → same a b ≡ true → a ≡ b
unfolding same
same→eq a b h = ground arith

-- Setting bit `k` of a byte sets that bit and no other.
set_table :
    tested
      (λ b.
        tested
          (λ k.
            tested (λ j. same (bit_of (bit_or b (2 ^ k % 256) % 256) j) (bit_of b j || k == j)) 8)
          8)
      256
    ≡ true
unfolding tested same bit_of
set_table = refl

bit_of-set :
    (b k j : ℕ)
    → b < 256
    → k < 8
    → j < 8
    → bit_of (bit_or b (2 ^ k % 256) % 256) j ≡ bit_of b j || k == j
bit_of-set b k j hb hk hj =
    same→eq _ _ (tested-each _ 8 j (tested-each _ 8 k (tested-each _ 256 b set_table hb) hk) hj)

get_or-set_self : (xs : List ℕ) (i v : ℕ) → i < length xs → get_or (set xs i v) i 0 ≡ v
get_or-set_self [] i v h = absurd (omega arith)
get_or-set_self (x ∷ xs) zero v h = refl
get_or-set_self (x ∷ xs) (suc i) v h = get_or-set_self xs i v (omega arith)

get_or-set_ne : (xs : List ℕ) (i j v : ℕ) → i ≢ j → get_or (set xs i v) j 0 ≡ get_or xs j 0
get_or-set_ne [] i j v h = refl
get_or-set_ne (x ∷ xs) zero zero v h = absurd (h refl)
get_or-set_ne (x ∷ xs) zero (suc j) v h = refl
get_or-set_ne (x ∷ xs) (suc i) zero v h = refl
get_or-set_ne (x ∷ xs) (suc i) (suc j) v h = get_or-set_ne xs i j v (λ e. h (ap suc e))

pub get_or-IsByte : (xs : List ℕ) (i : ℕ) → All IsByte xs → get_or xs i 0 < 256
get_or-IsByte [] i h = omega arith
get_or-IsByte (x ∷ xs) zero h = h.0
get_or-IsByte (x ∷ xs) (suc i) h = get_or-IsByte xs i h.1

set-IsByte : (xs : List ℕ) (i v : ℕ) → All IsByte xs → v < 256 → All IsByte (set xs i v)
set-IsByte [] i v h lt = tt
set-IsByte (x ∷ xs) zero v h lt = (lt, h.1)
set-IsByte (x ∷ xs) (suc i) v h lt = (h.0, set-IsByte xs i v h.1 lt)

pub set_bit-IsByte : (xs : List ℕ) (i : ℕ) → All IsByte xs → All IsByte (set_bit xs i)
unfolding set_bit
set_bit-IsByte xs i h = set-IsByte xs (i / 8) _ h (omega arith)

pub length-set_bit : (xs : List ℕ) (i : ℕ) → length (set_bit xs i) ≡ length xs
unfolding set_bit
length-set_bit xs i = length-set xs (i / 8) _

same_bit : (i j : ℕ) → i / 8 ≡ j / 8 → (i % 8 == j % 8) ≡ (i == j)
same_bit i j e = ground arith

other_byte : (b : Bool) (i j : ℕ) → i / 8 ≢ j / 8 → b ≡ b || i == j
other_byte b i j ne = ground arith

-- Setting a bit inside the bitmap sets that bit and no other.
pub is_bit_set-set_bit :
    (xs : List ℕ) (i j : ℕ)
    → All IsByte xs
    → i / 8 < length xs
    → is_bit_set (set_bit xs i) j ≡ is_bit_set xs j || i == j
unfolding is_bit_set set_bit
is_bit_set-set_bit xs i j h lt =
    let b = get_or xs (i / 8) 0 in
    let v = bit_or b (2 ^ (i % 8) % 256) % 256 in
    elim (ℕ_discrete (i / 8) (j / 8)) [
      | yes e ↦
          ap (λ k. bit_of (get_or (set xs (i / 8) v) k 0) (j % 8)) (sym e)
          ∙ ap (λ c. bit_of c (j % 8)) (get_or-set_self xs (i / 8) v lt)
          ∙ bit_of-set b (i % 8) (j % 8) (get_or-IsByte xs (i / 8) h) (omega arith) (omega arith)
          ∙ ap (λ q. bit_of b (j % 8) || q) (same_bit i j e)
          ∙ ap (λ k. bit_of (get_or xs k 0) (j % 8) || i == j) e
      | no ne ↦
          ap (λ c. bit_of c (j % 8)) (get_or-set_ne xs (i / 8) (j / 8) v ne)
          ∙ other_byte (bit_of (get_or xs (j / 8) 0) (j % 8)) i j ne
    ]

get_or-replicate : (n i : ℕ) → get_or {A = ℕ} (replicate n 0) i 0 ≡ 0
get_or-replicate zero i = refl
get_or-replicate (suc n) zero = refl
get_or-replicate (suc n) (suc i) = get_or-replicate n i

pub replicate-IsByte : (n : ℕ) → All IsByte (replicate n 0)
replicate-IsByte zero = tt
replicate-IsByte (suc n) = (omega arith, replicate-IsByte n)

zero_table : tested (λ k. not (bit_of 0 k)) 8 ≡ true
unfolding tested bit_of
zero_table = refl

-- No bit is set in a fresh bitmap.
pub is_bit_set-replicate : (n i : ℕ) → is_bit_set (replicate n 0) i ≡ false
unfolding is_bit_set
is_bit_set-replicate n i =
    rw (get_or-replicate n (i / 8)) (ground (arith, tested-each _ 8 (i % 8) zero_table))
