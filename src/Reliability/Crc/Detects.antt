-- ===== src/Reliability/Crc/Detects.antt =====
-- The register of the CRC loses nothing: the step of one bit and the step of one byte are
-- injective on 32 bits, so a change of one byte changes the checksum.
use keydrop.Base.{
  ℕ, zero, suc, ◌+◌, ◌-◌, ◌/◌, ◌%◌, ◌^◌, ◌≤◌, ◌<◌, ◌≡◌, ◌≢◌, ◌⊎◌, inl, inr, refl, sym, ap, ◌∙◌,
  arith,
}
use keydrop.Base.{
  bit_and, bit_xor, List, [], ◌∷◌, ◌++◌, length, take, drop, All, IsByte, All-append, take_all,
}
use keydrop.Base.Bits.{
  bit_xor-cancel, bit_xor-lt, le-bit_xor, bit_and-one, bit_xor-zero, bit_xor_digit,
}
use keydrop.Reliability.Crc.{crc_bit, crc_bits, crc_bytes, crc32_range, crc32}

polynomial : ℕ
polynomial = 0xEDB88320

parity : (c : ℕ) → (c % 2 ≡ 0) ⊎ (c % 2 ≡ 1)
parity c = omega arith

-- The step of one bit without masks.
crc_bit_cases :
    (c : ℕ)
    → ((c % 2 ≡ 0) × (crc_bit c ≡ c / 2)) ⊎ ((c % 2 ≡ 1) × (crc_bit c ≡ bit_xor (c / 2) polynomial))
unfolding crc_bit polynomial
crc_bit_cases c =
    let masked = λ (k : ℕ). bit_xor (c / 2) (bit_and polynomial ((2 ^ 32 - k) % 2 ^ 32)) in
    elim (parity c) [
      | inl e ↦ inl (e, ap masked (bit_and-one c ∙ e) ∙ bit_xor-zero (c / 2))
      | inr e ↦ inr (e, ap masked (bit_and-one c ∙ e))
    ]

crc_bit-lt : (c : ℕ) → c < 2 ^ 32 → crc_bit c < 2 ^ 32
unfolding polynomial
crc_bit-lt c h =
    ground (arith, crc_bit_cases c, bit_xor-lt 32 (c / 2) 0xEDB88320 (omega arith) (omega arith))

-- The top bit of the result tells the low bit of the register.
crc_bit-injective : (c d : ℕ) → c < 2 ^ 32 → d < 2 ^ 32 → crc_bit c ≡ crc_bit d → c ≡ d
unfolding polynomial
crc_bit-injective c d hc hd e = ground (
  arith,
  crc_bit_cases c,
  crc_bit_cases d,
  bit_xor-cancel (c / 2) (d / 2) 0xEDB88320,
  le-bit_xor 31 (c / 2) 0xEDB88320,
  le-bit_xor 31 (d / 2) 0xEDB88320,
)

crc_bits-lt : (n c : ℕ) → c < 2 ^ 32 → crc_bits n c < 2 ^ 32
unfolding crc_bits
crc_bits-lt zero c h = h
crc_bits-lt (suc n) c h = crc_bits-lt n (crc_bit c) (crc_bit-lt c h)

crc_bits-injective : (n c d : ℕ) → c < 2 ^ 32 → d < 2 ^ 32 → crc_bits n c ≡ crc_bits n d → c ≡ d
unfolding crc_bits
crc_bits-injective zero c d hc hd e = e
crc_bits-injective (suc n) c d hc hd e =
    crc_bit-injective c d hc hd
      (crc_bits-injective n (crc_bit c) (crc_bit d) (crc_bit-lt c hc) (crc_bit-lt d hd) e)

abbrev crc_byte : ℕ → ℕ → ℕ
crc_byte c b = crc_bits 8 (bit_xor c b)

crc_byte-lt : (c b : ℕ) → c < 2 ^ 32 → b < 256 → crc_byte c b < 2 ^ 32
crc_byte-lt c b hc hb = crc_bits-lt 8 (bit_xor c b) (bit_xor-lt 32 c b hc (omega arith))

pub crc_bytes-lt : (bs : List ℕ) (c : ℕ) → All IsByte bs → c < 2 ^ 32 → crc_bytes bs c < 2 ^ 32
unfolding crc_bytes
crc_bytes-lt [] c h hc = hc
crc_bytes-lt (b ∷ bs) c (hb, h) hc = crc_bytes-lt bs (crc_byte c b) h (crc_byte-lt c b hc hb)

crc_bytes-injective :
    (bs : List ℕ) (c d : ℕ)
    → All IsByte bs
    → c < 2 ^ 32
    → d < 2 ^ 32
    → crc_bytes bs c ≡ crc_bytes bs d
    → c ≡ d
unfolding crc_bytes
crc_bytes-injective [] c d h hc hd e = e
crc_bytes-injective (b ∷ bs) c d (hb, h) hc hd e = bit_xor-cancel c d b (
    crc_bits-injective 8 (bit_xor c b) (bit_xor d b) (bit_xor-lt 32 c b hc (omega arith))
      (bit_xor-lt 32 d b hd (omega arith))
      (crc_bytes-injective bs (crc_byte c b) (crc_byte d b) h (crc_byte-lt c b hc hb)
        (crc_byte-lt d b hd hb) e))

pub crc_bytes-append :
    (xs ys : List ℕ) (c : ℕ) → crc_bytes (xs ++ ys) c ≡ crc_bytes ys (crc_bytes xs c)
unfolding crc_bytes
crc_bytes-append [] ys c = refl
crc_bytes-append (x ∷ xs) ys c = crc_bytes-append xs ys (crc_byte c x)

xor_comm_fuel : (n a b : ℕ) → a ≤ n → b ≤ n → bit_xor a b ≡ bit_xor b a
xor_comm_fuel zero zero zero h k = refl
xor_comm_fuel zero a b h k = let e : a ≡ b = omega arith in rw e
xor_comm_fuel (suc n) a b h k = omega (
  arith,
  bit_xor_digit a b,
  bit_xor_digit b a,
  xor_comm_fuel n (a / 2) (b / 2) (omega arith) (omega arith),
)

-- The register after one byte tells the byte.
crc_byte-byte : (c a b : ℕ) → c < 2 ^ 32 → a < 256 → b < 256 → crc_byte c a ≡ crc_byte c b → a ≡ b
crc_byte-byte c a b hc ha hb e = bit_xor-cancel a b c (
    xor_comm_fuel (a + c) a c (omega arith) (omega arith)
    ∙ crc_bits-injective 8 (bit_xor c a) (bit_xor c b) (bit_xor-lt 32 c a hc (omega arith))
        (bit_xor-lt 32 c b hc (omega arith)) e
    ∙ xor_comm_fuel (b + c) c b (omega arith) (omega arith))

crc_bytes-differ :
    (front back : List ℕ) (c a b : ℕ)
    → All IsByte front
    → All IsByte back
    → c < 2 ^ 32
    → a < 256
    → b < 256
    → crc_bytes (front ++ (a ∷ back)) c ≡ crc_bytes (front ++ (b ∷ back)) c
    → a ≡ b
crc_bytes-differ front back c a b hf hk hc ha hb e =
    let m = crc_bytes front c in
    let hm = crc_bytes-lt front c hf hc in
    crc_byte-byte m a b hm ha hb (
      crc_bytes-injective back (crc_byte m a) (crc_byte m b) hk (crc_byte-lt m a hm ha)
        (crc_byte-lt m b hm hb)
        (unfold crc_bytes in
          sym (crc_bytes-append front (a ∷ back) c) ∙ e ∙ crc_bytes-append front (b ∷ back) c))

whole : (bs : List ℕ) → take (length bs - 0) (drop 0 bs) ≡ bs
whole bs = let e : length bs - 0 ≡ length bs = omega arith in rw e (take_all bs)

crc32-crc_bytes : (bs : List ℕ) → crc32 bs ≡ 0xFFFFFFFF - crc_bytes bs 0xFFFFFFFF
unfolding crc32 crc32_range
crc32-crc_bytes bs = ap (λ l. 0xFFFFFFFF - crc_bytes l 0xFFFFFFFF) (whole bs)

-- The loop over the first `n` bytes gives the checksum of these bytes.
pub crc32_range-crc32 : (bs : List ℕ) (n : ℕ) → crc32_range bs 0 n ≡ crc32 (take n bs)
unfolding crc32_range
crc32_range-crc32 bs n = let e : n - 0 ≡ n = omega arith in rw e (sym (crc32-crc_bytes (take n bs)))

-- The checksum of bytes fits 32 bits, and two packets that differ in exactly one byte have
-- different checksums: every corruption of a single byte is seen.
pub crc32_detects_one_byte :
    (front back : List ℕ) (a b : ℕ)
    → All IsByte front
    → All IsByte back
    → a < 256
    → b < 256
    → a ≢ b
    → (crc32 (front ++ (a ∷ back)) < 2 ^ 32)
      × (crc32 (front ++ (a ∷ back)) ≢ crc32 (front ++ (b ∷ back)))
crc32_detects_one_byte front back a b hf hk ha hb ne =
    let p = front ++ (a ∷ back) in
    let q = front ++ (b ∷ back) in
    let hp : crc_bytes p 0xFFFFFFFF < 2 ^ 32 =
      crc_bytes-lt p 0xFFFFFFFF (All-append IsByte front (a ∷ back) hf (ha, hk)) (omega arith) in
    let hq : crc_bytes q 0xFFFFFFFF < 2 ^ 32 =
      crc_bytes-lt q 0xFFFFFFFF (All-append IsByte front (b ∷ back) hf (hb, hk)) (omega arith) in
    (
      omega (arith, crc32-crc_bytes p),
      λ e. ne (
          crc_bytes-differ front back 0xFFFFFFFF a b hf hk (omega arith) ha hb
            (omega (arith, crc32-crc_bytes p, crc32-crc_bytes q))),
    )
