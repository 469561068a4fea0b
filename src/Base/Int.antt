-- ===== src/Base/Int.antt =====
-- Signed machine integers: an integer, and its two's complement word.
use Prim.Native.Nat.{ℕ, ◌-◌, ◌%◌, ◌/◌, ◌^◌, ◌<◌}
use mathlib.Core.Path.{◌≡◌}
use native.Mathlib.Omega.{arith}
use keydrop.Base.Tests.{ltb, if◌then◌else◌}

-- `negsuc n` is -(n + 1).
pub data ℤ : Type 0 where
  pos : ℕ → ℤ
  negsuc : ℕ → ℤ

-- The conversion to an unsigned type of `m` values, `static_cast<u16>(value)` at 2 ^ 16.
unfoldable pub to_word : ℕ → ℤ → ℕ
to_word m (pos n) = n % m
to_word m (negsuc n) = m - 1 - n % m

-- The conversion back to the signed type of `m` values.
unfoldable pub from_word : ℕ → ℕ → ℤ
from_word m w = if ltb w (m / 2) then pos w else negsuc (m - 1 - w)

-- The values of the signed type of `m` values.
abbrev pub Fits : ℕ → ℤ → Type 0
Fits m (pos n) = n < m / 2
Fits m (negsuc n) = n < m / 2

module _ (z : ℤ) where
  pub to_word_8 :
      Fits (2 ^ 8) z → (to_word (2 ^ 8) z < 2 ^ 8) × (from_word (2 ^ 8) (to_word (2 ^ 8) z) ≡ z)
  unfolding to_word from_word
  to_word_8 h = ground arith

  pub to_word_16 :
      Fits (2 ^ 16) z
      → (to_word (2 ^ 16) z < 2 ^ 16) × (from_word (2 ^ 16) (to_word (2 ^ 16) z) ≡ z)
  unfolding to_word from_word
  to_word_16 h = ground arith

  pub to_word_32 :
      Fits (2 ^ 32) z
      → (to_word (2 ^ 32) z < 2 ^ 32) × (from_word (2 ^ 32) (to_word (2 ^ 32) z) ≡ z)
  unfolding to_word from_word
  to_word_32 h = ground arith
