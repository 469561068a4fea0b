-- ===== src/Schema/Stream/Delta/Tagged.antt =====
-- What stands behind a tag leads back to the integer.
use keydrop.Base.{ℕ, ◌%◌, ◌^◌, ◌<◌, ◌≡◌, refl, ap, ◌∙◌, inl, inr, arith, true, Bool-cases}
use keydrop.Base.{List, ◌∷◌, ◌++◌, Option, some, le_bytes}
use keydrop.Base.Int.{ℤ, pos, to_word, from_word}
use mathlib.Core.Path.{subst}
use keydrop.Core.Endian.{Host, little}
use keydrop.Core.Reader
use keydrop.Core.Reader.{M, PacketReader, ◌>>=◌, return}
use keydrop.Core.Packet.Read.{
  At, Reads, >>=-ok, map-Reads, read_u8-Reads, read_u16-Reads, read_u32-Reads,
}
use keydrop.Schema.Stream.Delta.{
  sub_nat, ◌+ℤ◌, ◌-ℤ◌, fits_within, write_signed_le, write_tagged_16, write_tagged_32, sign_extend,
}
use keydrop.Schema.Stream.Delta.{read_behind_16, read_behind_32, read_tagged_16, read_tagged_32}

+-minus : (a b : ℤ) → a +ℤ (b -ℤ a) ≡ b
unfolding ◌+ℤ◌ ◌-ℤ◌ sub_nat
+-minus a b = ground arith

module _ (d : ℤ) where
  sign_8 : fits_within 128 d ≡ true → sign_extend (to_word (2 ^ 64) d % 2 ^ 8) 1 ≡ d
  unfolding fits_within to_word sign_extend from_word
  sign_8 h = ground arith

  sign_16 : fits_within 32768 d ≡ true → sign_extend (to_word (2 ^ 64) d % 2 ^ 16) 2 ≡ d
  unfolding fits_within to_word sign_extend from_word
  sign_16 h = ground arith

  sign_32 : fits_within 2147483648 d ≡ true → sign_extend (to_word (2 ^ 64) d % 2 ^ 32) 4 ≡ d
  unfolding fits_within to_word sign_extend from_word
  sign_32 h = ground arith

-- The low bits of the word of 64 bits are those of the value.
low_word_16 : (z : ℤ) → to_word (2 ^ 16) (pos (to_word (2 ^ 64) z % 2 ^ 16)) ≡ to_word (2 ^ 16) z
unfolding to_word
low_word_16 z = ground arith

low_word_32 : (z : ℤ) → to_word (2 ^ 32) (pos (to_word (2 ^ 64) z % 2 ^ 32)) ≡ to_word (2 ^ 32) z
unfolding to_word
low_word_32 z = ground arith

pub low_byte : (z : ℤ) → to_word (2 ^ 64) z % 2 ^ 8 ≡ to_word (2 ^ 8) z
unfolding to_word
low_byte z = ground arith

pub low_1 : (v : ℕ) → le_bytes 1 v ≡ le_bytes 1 (v % 2 ^ 8)
unfolding le_bytes
low_1 v = ground arith

low_2 : (v : ℕ) → le_bytes 2 v ≡ le_bytes 2 (v % 2 ^ 16)
unfolding le_bytes
low_2 v = ground arith

low_4 : (v : ℕ) → le_bytes 4 v ≡ le_bytes 4 (v % 2 ^ 32)
unfolding le_bytes
low_4 v = ground arith

-- A first byte that chooses what is read next.
tag-Reads :
    {A : Type 0} (t : ℕ) (k : ℕ → M A) (y : A) (mid rest : List ℕ) (r : PacketReader)
    → t < 2 ^ 8
    → At r (t ∷ mid)
    → ((r' : PacketReader) → At r' mid → Reads (k t) r' y rest)
    → Reads (Reader.read_u8 >>= k) r y rest
unfolding le_bytes
tag-Reads t k y mid rest r h at then_read =
    let byte : t ≡ t % 256 = omega arith in
    let (r', e, left, same) = read_u8-Reads mid r t h (subst (λ b. At r (b ∷ mid)) byte at) in
    let (r'', e', left', same') = then_read r' left in
    (r'', >>=-ok Reader.read_u8 k e ∙ e', left', same' ∙ same)

-- What is read behind a tag has the low bits of the value.
abbrev Finds : ℕ → M (Option ℤ) → ℤ → PacketReader → List ℕ → Type 0
Finds w m value r rest =
    (c : ℤ) × (to_word (2 ^ w) c ≡ to_word (2 ^ w) value) × Reads m r (some c) rest

module _ (host : Host) (order : host.order ≡ little) (previous value : ℤ) (rest : List ℕ) where
  abbrev distance : ℤ
  distance = value -ℤ previous

  -- The distance in one byte.
  near-Reads :
      (r : PacketReader)
      → fits_within 128 distance ≡ true
      → At r (write_signed_le distance 1 ++ rest)
      → Reads
          (Reader.read_u8 >>= λ raw. return (some (previous +ℤ sign_extend raw 1)))
          r
          (some value)
          rest
  unfolding write_signed_le
  near-Reads r fits at =
      map-Reads Reader.read_u8 (λ raw. some (previous +ℤ sign_extend raw 1)) r
        (to_word (2 ^ 64) distance % 2 ^ 8) (some value) rest
        (ap (λ d. some (previous +ℤ d)) (sign_8 distance fits) ∙ ap some (+-minus previous value))
        (read_u8-Reads rest r _ (omega arith) (subst (λ l. At r (l ++ rest)) (low_1 _) at))

  middle-Reads :
      (r : PacketReader)
      → fits_within 32768 distance ≡ true
      → At r (write_signed_le distance 2 ++ rest)
      → Reads
          (Reader.read_u16 host >>= λ raw. return (some (previous +ℤ sign_extend raw 2)))
          r
          (some value)
          rest
  unfolding write_signed_le
  middle-Reads r fits at =
      map-Reads (Reader.read_u16 host) (λ raw. some (previous +ℤ sign_extend raw 2)) r
        (to_word (2 ^ 64) distance % 2 ^ 16) (some value) rest
        (ap (λ d. some (previous +ℤ d)) (sign_16 distance fits) ∙ ap some (+-minus previous value))
        (read_u16-Reads rest r host order _ (omega arith)
          (subst (λ l. At r (l ++ rest)) (low_2 _) at))

  far-Reads :
      (r : PacketReader)
      → fits_within 2147483648 distance ≡ true
      → At r (write_signed_le distance 4 ++ rest)
      → Reads
          (Reader.read_u32 host >>= λ raw. return (some (previous +ℤ sign_extend raw 4)))
          r
          (some value)
          rest
  unfolding write_signed_le
  far-Reads r fits at =
      map-Reads (Reader.read_u32 host) (λ raw. some (previous +ℤ sign_extend raw 4)) r
        (to_word (2 ^ 64) distance % 2 ^ 32) (some value) rest
        (ap (λ d. some (previous +ℤ d)) (sign_32 distance fits) ∙ ap some (+-minus previous value))
        (read_u32-Reads rest r host order _ (omega arith)
          (subst (λ l. At r (l ++ rest)) (low_4 _) at))

  -- The value itself, behind the tag 3.
  whole_16-Reads :
      (r : PacketReader)
      → At r (write_signed_le value 2 ++ rest)
      → Reads
          (Reader.read_u16 host >>= λ raw. return (some (pos raw)))
          r
          (some (pos (to_word (2 ^ 64) value % 2 ^ 16)))
          rest
  unfolding write_signed_le
  whole_16-Reads r at =
      map-Reads (Reader.read_u16 host) (λ raw. some (pos raw)) r _ _ rest refl
        (read_u16-Reads rest r host order _ (omega arith)
          (subst (λ l. At r (l ++ rest)) (low_2 _) at))

  whole_32-Reads :
      (r : PacketReader)
      → At r (write_signed_le value 4 ++ rest)
      → Reads
          (Reader.read_u32 host >>= λ raw. return (some (pos raw)))
          r
          (some (pos (to_word (2 ^ 64) value % 2 ^ 32)))
          rest
  unfolding write_signed_le
  whole_32-Reads r at =
      map-Reads (Reader.read_u32 host) (λ raw. some (pos raw)) r _ _ rest refl
        (read_u32-Reads rest r host order _ (omega arith)
          (subst (λ l. At r (l ++ rest)) (low_4 _) at))

  module _ (r : PacketReader) where
    pub read_tagged_16-Finds :
        At r (write_tagged_16 distance value ++ rest)
        → Finds 16 (read_tagged_16 host previous) value r rest
    unfolding write_tagged_16 read_tagged_16 read_behind_16
    read_tagged_16-Finds at =
        let k = read_behind_16 host previous in
        elim (Bool-cases (fits_within 128 distance)) [
          | inl near ↦ (
            value,
            refl,
            tag-Reads 0 k _ _ rest r (omega arith) (rw near at at)
                (λ r' at'. near-Reads r' near at'),
          )
          | inr not_near ↦ elim (Bool-cases (fits_within 32768 distance)) [
            | inl middle ↦ (
              value,
              refl,
              tag-Reads 1 k _ _ rest r (omega arith) (rw (not_near, middle) at at)
                  (λ r' at'. middle-Reads r' middle at'),
            )
            | inr not_middle ↦ (
              _,
              low_word_16 value,
              tag-Reads 3 k _ _ rest r (omega arith) (rw (not_near, not_middle) at at)
                  (λ r' at'. whole_16-Reads r' at'),
            )
          ]
        ]

    pub read_tagged_32-Finds :
        At r (write_tagged_32 distance value ++ rest)
        → Finds 32 (read_tagged_32 host previous) value r rest
    unfolding write_tagged_32 read_tagged_32 read_behind_32
    read_tagged_32-Finds at =
        let k = read_behind_32 host previous in
        elim (Bool-cases (fits_within 128 distance)) [
          | inl near ↦ (
            value,
            refl,
            tag-Reads 0 k _ _ rest r (omega arith) (rw near at at)
                (λ r' at'. near-Reads r' near at'),
          )
          | inr not_near ↦ elim (Bool-cases (fits_within 32768 distance)) [
            | inl middle ↦ (
              value,
              refl,
              tag-Reads 1 k _ _ rest r (omega arith) (rw (not_near, middle) at at)
                  (λ r' at'. middle-Reads r' middle at'),
            )
            | inr not_middle ↦ elim (Bool-cases (fits_within 2147483648 distance)) [
              | inl far ↦ (
                value,
                refl,
                tag-Reads 2 k _ _ rest r (omega arith) (rw (not_near, not_middle, far) at at)
                    (λ r' at'. far-Reads r' far at'),
              )
              | inr not_far ↦ (
                _,
                low_word_32 value,
                tag-Reads 3 k _ _ rest r (omega arith) (rw (not_near, not_middle, not_far) at at)
                    (λ r' at'. whole_32-Reads r' at'),
              )
            ]
          ]
        ]
