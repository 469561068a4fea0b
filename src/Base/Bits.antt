-- ===== src/Base/Bits.antt =====
-- The native bit operations at variables: the law of the lowest digit, `|` of disjoint fields,
-- and the cancellation and size of `^`.
use Prim.Native.Nat.{ℕ, zero, suc, ◌+◌, ◌-◌, ◌*◌, ◌/◌, ◌%◌, ◌^◌, ◌≤◌, ◌<◌, min, max}
use Prim.Native.Nat.{bit_and, bit_or, bit_xor, digits, bitwise, differ}
use Prim.Native.Nat.{bit_and-bitwise, bit_or-bitwise, bit_xor-bitwise}
use mathlib.Core.Path.{◌≡◌, refl, ap, ◌∙◌}
use native.Mathlib.Nat.{le_refl, pow-suc, one-le-pow}
use native.Mathlib.Omega.{arith}

-- A number is reached from 0 by the numbers whose half is reached.
by_halves : (P : ℕ → Type 0) → P 0 → ((a : ℕ) → P (a / 2) → P a) → (a : ℕ) → P a
by_halves P base step a = below a a (le_refl a)
  where
    below : (n x : ℕ) → x ≤ n → P x
    below n zero le = base
    below zero (suc x) le = absurd (omega arith)
    below (suc n) (suc x) le = step (suc x) (below n (suc x / 2) (omega arith))

-- The recursion on digits behind the native operations does not depend on spare fuel.
module _ (z : ℕ → ℕ) (f : ℕ → ℕ → ℕ) where
  one_more : (n a b : ℕ) → a ≤ n → digits z f (suc n) a b ≡ digits z f n a b
  one_more zero zero b le = refl
  one_more zero (suc a) b le = absurd (omega arith)
  one_more (suc n) zero b le = refl
  one_more (suc n) (suc a) b le =
      ap (λ (d : ℕ). d * 2 + f (suc a % 2) (b % 2)) (one_more n (suc a / 2) (b / 2) (omega arith))

  spare : (k n a b : ℕ) → n ≡ k + a → digits z f n a b ≡ bitwise z f a b
  spare zero n a b e = ap (λ m. digits z f m a b) (e ∙ omega arith)
  spare (suc k) zero a b e = absurd (omega arith)
  spare (suc k) (suc n) a b e = one_more n a b (omega arith) ∙ spare k n a b (omega arith)

  bitwise-suc :
      (x y : ℕ)
      → bitwise z f (suc x) y ≡ bitwise z f (suc x / 2) (y / 2) * 2 + f (suc x % 2) (y % 2)
  bitwise-suc x y =
      ap (λ (d : ℕ). d * 2 + f (suc x % 2) (y % 2))
        (spare (x - suc x / 2) x (suc x / 2) (y / 2) (omega arith))

-- The lowest digit of a result is that of the operands.
pub bit_or_digit : (a b : ℕ) → bit_or a b ≡ bit_or (a / 2) (b / 2) * 2 + max (a % 2) (b % 2)
bit_or_digit zero b = simp bit_or-bitwise (omega arith)
bit_or_digit (suc a) b = simp bit_or-bitwise (bitwise-suc (λ y. y) max a b)

differ-sub : (a b : ℕ) → differ a b ≡ (a - b) + (b - a)
differ-sub zero b = omega arith
differ-sub (suc a) zero = omega arith
differ-sub (suc a) (suc b) = omega (arith, differ-sub a b)

-- The digit that `^` gives is the distance of the two digits.
pub bit_xor_digit :
    (a b : ℕ) → bit_xor a b ≡ bit_xor (a / 2) (b / 2) * 2 + ((a % 2 - b % 2) + (b % 2 - a % 2))
bit_xor_digit zero b = simp bit_xor-bitwise (omega arith)
bit_xor_digit (suc a) b = omega (
  arith,
  bit_xor-bitwise (suc a) b,
  bit_xor-bitwise (suc a / 2) (b / 2),
  bitwise-suc (λ y. y) differ a b,
  differ-sub (suc a % 2) (b % 2),
)

pub zero-bit_or : (b : ℕ) → bit_or 0 b ≡ b
zero-bit_or b = bit_or-bitwise 0 b

shifted_once : (x k : ℕ) → x * 2 ^ suc k ≡ x * 2 ^ k * 2
shifted_once x k = omega (arith, ap (λ n. x * n) (pow-suc 2 k))

-- `r | (q << k)` is a sum where `r` fits `k` bits.
pub bit_or-shift : (k r q : ℕ) → r < 2 ^ k → bit_or r (q * 2 ^ k) ≡ r + q * 2 ^ k
bit_or-shift zero zero q fits = ground (arith, zero-bit_or (q * 1))
bit_or-shift zero (suc r) q fits = absurd (omega arith)
bit_or-shift (suc k) r q fits =
    ground (
      arith,
      bit_or_digit r (q * 2 ^ suc k),
      shifted_once q k,
      pow-suc 2 k,
      bit_or-shift k (r / 2) q,
    )

pub bit_xor-zero : (a : ℕ) → bit_xor a 0 ≡ a
bit_xor-zero = by_halves (λ a. bit_xor a 0 ≡ a) refl (λ a h. omega (arith, bit_xor_digit a 0, h))

bit_xor-cancel_fuel : (n a b c : ℕ) → a ≤ n → b ≤ n → bit_xor a c ≡ bit_xor b c → a ≡ b
bit_xor-cancel_fuel zero a b c p q e = omega arith
bit_xor-cancel_fuel (suc n) a b c p q e =
    ground
      (arith, bit_xor_digit a c, bit_xor_digit b c, bit_xor-cancel_fuel n (a / 2) (b / 2) (c / 2))

-- `^` by one value loses nothing.
pub bit_xor-cancel : (a b c : ℕ) → bit_xor a c ≡ bit_xor b c → a ≡ b
bit_xor-cancel a b c e = bit_xor-cancel_fuel (a + b) a b c (omega arith) (omega arith) e

-- `^` of two values of `k` bits has `k` bits.
pub bit_xor-lt : (k a b : ℕ) → a < 2 ^ k → b < 2 ^ k → bit_xor a b < 2 ^ k
bit_xor-lt zero zero zero p q = omega arith
bit_xor-lt zero a b p q = ground (arith, bit_xor_digit 0 0)
bit_xor-lt (suc k) a b p q =
    ground (arith, bit_xor_digit a b, pow-suc 2 k, bit_xor-lt k (a / 2) (b / 2))

-- The top bit of `b` stands in `a ^ b` where `a` does not reach it.
pub le-bit_xor : (k a b : ℕ) → a < 2 ^ k → 2 ^ k ≤ b → b < 2 ^ suc k → 2 ^ k ≤ bit_xor a b
le-bit_xor zero zero (suc zero) p q r = omega arith
le-bit_xor zero a b p q r = ground (arith, bit_xor_digit 0 1)
le-bit_xor (suc k) a b p q r =
    ground (arith, bit_xor_digit a b, pow-suc 2 k, pow-suc 2 (suc k), le-bit_xor k (a / 2) (b / 2))

pub bit_and_digit : (a b : ℕ) → bit_and a b ≡ bit_and (a / 2) (b / 2) * 2 + min (a % 2) (b % 2)
bit_and_digit zero b = simp bit_and-bitwise (omega arith)
bit_and_digit (suc a) b = simp bit_and-bitwise (bitwise-suc (λ y. 0) min a b)

bit_and-zero : (a : ℕ) → bit_and a 0 ≡ 0
bit_and-zero = by_halves (λ a. bit_and a 0 ≡ 0) refl (λ a h. omega (arith, bit_and_digit a 0, h))

pub bit_and-one : (a : ℕ) → bit_and a 1 ≡ a % 2
bit_and-one a = omega (arith, bit_and_digit a 1, bit_and-zero (a / 2))

bit_and-fifteen : (a : ℕ) → bit_and a 15 ≡ a % 16
bit_and-fifteen a = omega (
  arith,
  bit_and_digit a 15,
  bit_and_digit (a / 2) 7,
  bit_and_digit (a / 2 / 2) 3,
  bit_and_digit (a / 2 / 2 / 2) 1,
  bit_and-zero (a / 2 / 2 / 2 / 2),
)

-- The mask `0xFF` keeps the low byte.
pub bit_and-byte : (a : ℕ) → bit_and a 255 ≡ a % 256
bit_and-byte a = omega (
  arith,
  bit_and_digit a 255,
  bit_and_digit (a / 2) 127,
  bit_and_digit (a / 2 / 2) 63,
  bit_and_digit (a / 2 / 2 / 2) 31,
  bit_and-fifteen (a / 2 / 2 / 2 / 2),
)

bit_and-fields :
    (k q r m : ℕ) → r < 2 ^ k → bit_and (q * 2 ^ k + r) (m * 2 ^ k) ≡ bit_and q m * 2 ^ k
bit_and-fields zero q zero m fits =
    let e : q * 1 + 0 ≡ q = omega arith in
    let f : m * 1 ≡ m = omega arith in rw (e, f) (omega arith)
bit_and-fields zero q (suc r) m fits = absurd (omega arith)
bit_and-fields (suc k) q r m fits = ground (
  arith,
  bit_and_digit (q * 2 ^ suc k + r) (m * 2 ^ suc k),
  shifted_once q k,
  shifted_once m k,
  shifted_once (bit_and q m) k,
  pow-suc 2 k,
  bit_and-fields k q (r / 2) m,
)

-- The mask `0xFF << k` keeps the byte at bit `k`, in its place.
pub bit_and-shifted_byte : (k a : ℕ) → bit_and a (255 * 2 ^ k) ≡ a / 2 ^ k % 256 * 2 ^ k
bit_and-shifted_byte k a =
    ground (
      arith,
      one-le-pow k 2,
      bit_and-fields k (a / 2 ^ k) (a % 2 ^ k) 255,
      bit_and-byte (a / 2 ^ k),
    )
