-- ===== src/Examples/Tests.antt =====
-- A test of the bytes of a list, for the lists that the runs stand on.
use keydrop.Base.{ℕ, ◌≡◌, arith, Bool, true, ltb, ◌&&◌, List, [], ◌∷◌, IsByte, All}

abbrev pub are_bytes : List ℕ → Bool
are_bytes [] = true
are_bytes (b ∷ bs) = ltb b 256 && are_bytes bs

pub are_bytes-IsByte : (bs : List ℕ) → are_bytes bs ≡ true → All IsByte bs
are_bytes-IsByte [] h = tt
are_bytes-IsByte (b ∷ bs) h = (ground arith, are_bytes-IsByte bs (ground arith))
