-- ===== src/Reliability/Envelope/Conditions.antt =====
-- What the options of `check_packet` ask of a packet, and what it means that a part of the checks
-- decides it.
use keydrop.Base.{
  ℕ, zero, suc, ◌+◌, ◌^◌, ◌≤◌, ◌<◌, ◌≡◌, ◌≢◌, refl, ap, ◌∙◌, ◌↔◌, ◌⊎◌, inl, inr, arith,
}
use keydrop.Base.{
  Bool, true, false, not, ◌&&◌, ◌||◌, Option-cases, ltb, ◌==◌, List, ◌∷◌, Option, none, some,
}
use keydrop.Base.{length, take, drop, le_value}
use keydrop.Base.{ok, ◌>>=◌, if◌then◌else◌}
use keydrop.Reliability.Crc.{crc32_range, crc32}
use keydrop.Reliability.Check.{
  CorruptionCheckResult, fail, bad_header_marker, invalid_field_length, checksum_mismatch,
}
use keydrop.Reliability.Envelope.{CorruptionCheckOptions, read, add_size, Part, ◌then_check◌}
use keydrop.Reliability.Envelope.{check_header_bytes, read_little_endian_value}
use keydrop.Reliability.Envelope.{check_declared, check_length, check_crc}

-- The sums of the offsets and sizes that the client gives stay below 2 ^ 64.
pub record InRange (o : CorruptionCheckOptions) : Type 0 where
  pub header : o.header_offset + length o.expected_header < 2 ^ 64
  pub prefix : o.length_field_offset + 4 < 2 ^ 64
  pub payload : o.payload_offset + 2 ^ 32 ≤ 2 ^ 64
  pub crc : o.crc32_offset + 4 < 2 ^ 64

module _ (p : List ℕ) (o : CorruptionCheckOptions) where
  -- The expected header stands at its offset.
  abbrev pub HasHeader : Type 0
  HasHeader =
      length o.expected_header ≢ 0
      → (o.header_offset + length o.expected_header ≤ length p)
        × (take (length o.expected_header) (drop o.header_offset p) ≡ o.expected_header)

  -- The payload that the prefix declares is within the limit and inside the packet, and ends it
  -- where the client wants that.
  abbrev pub Declares : ℕ → Type 0
  Declares n =
      (o.max_payload_length ≢ 0 → n ≤ o.max_payload_length)
      × (o.payload_offset + n ≤ length p)
      × (o.strict_length_match ≡ true → length p ≡ o.payload_offset + n)

  abbrev pub HasLength : Type 0
  HasLength =
      o.enable_length_prefix ≡ true
      → ((o.length_field_size ≡ 1) ⊎ (o.length_field_size ≡ 2) ⊎ (o.length_field_size ≡ 4))
        × (o.length_field_offset + o.length_field_size ≤ length p)
        × Declares (le_value (take o.length_field_size (drop o.length_field_offset p)))

  abbrev pub HasChecksum : Type 0
  HasChecksum = (f : List ℕ → Bool) → o.checksum_validator ≡ some f → f p ≡ true

  -- The four bytes at the CRC's offset are the checksum of all bytes before them.
  abbrev pub HasCrc : Type 0
  HasCrc =
      o.enable_crc32 ≡ true
      → (o.crc32_offset + 4 ≤ length p)
        × (le_value (take 4 (drop o.crc32_offset p)) ≡ crc32 (take o.crc32_offset p))
        × (o.strict_length_match ≡ true → length p ≡ o.crc32_offset + 4)

  abbrev pub Accepts : Type 0
  Accepts = (o.minimum_length ≤ length p) × HasHeader × HasLength × HasChecksum × HasCrc

-- A part of the checks gives no exception, passes exactly where `P` holds, and a failure of it is
-- a failure.
pub record Decides (part : Part) (P : Type 0) : Type 0 where
  pub answer : Option CorruptionCheckResult
  pub given : part ≡ ok answer
  pub passes : (answer ≡ none) ↔ P
  pub failing : (f : CorruptionCheckResult) → answer ≡ some f → f.ok ≡ false

pub passing : {P : Type 0} (part : Part) → part ≡ ok none → P → Decides part P
passing part e h = record {
  answer = none;
  given = e;
  passes = (λ _. h, λ _. refl);
  failing = λ f x. cc;
}

pub refusing :
    {P : Type 0} (part : Part) (f : CorruptionCheckResult)
    → part ≡ ok (some f)
    → f.ok ≡ false
    → (¬ P)
    → Decides part P
refusing part f e bad fails = record {
  answer = some f;
  given = e;
  passes = (λ x. cc, λ h. absurd (fails h));
  failing = λ g x. cc;
}

module _ (p : List ℕ) (off i x : ℕ) (xs : List ℕ) (b : ℕ)
    (got : read p (add_size off i) ≡ ok b) where
  pub header_same :
      b ≡ x → check_header_bytes p off i (x ∷ xs) ≡ check_header_bytes p off (i + 1) xs
  unfolding check_header_bytes
  header_same e = ground arith

  pub header_other :
      (b == x) ≡ false
      → check_header_bytes p off i (x ∷ xs) ≡ ok (some (fail bad_header_marker (add_size off i)))
  unfolding check_header_bytes
  header_other e = ground arith

pub head_eq : {x y : ℕ} {xs ys : List ℕ} → ◌≡◌ {A = List ℕ} (x ∷ xs) (y ∷ ys) → x ≡ y
head_eq e = cc

pub tail_eq : {x y : ℕ} {xs ys : List ℕ} → ◌≡◌ {A = List ℕ} (x ∷ xs) (y ∷ ys) → xs ≡ ys
tail_eq e = cc

pub replaced :
    {P Q : Type 0} (part : Part) {part' : Part}
    → part ≡ part'
    → P ↔ Q
    → Decides part' P
    → Decides part Q
replaced part e iff d = record {
  answer = d.answer;
  given = e ∙ d.given;
  passes = (λ x. iff.0 (d.passes.0 x), λ h. d.passes.1 (iff.1 h));
  failing = d.failing;
}

pub both :
    {P Q : Type 0} (a b : Part) → Decides a P → Decides b Q → Decides (a then_check b) (P × Q)
both a b da db = elim (Option-cases da.answer) [
  | inl e ↦ record {
    answer = db.answer;
    given = ap (λ x. x then_check b) (da.given ∙ ap ok e) ∙ db.given;
    passes = (λ x. (da.passes.0 e, db.passes.0 x), λ (hp, hq). db.passes.1 hq);
    failing = db.failing;
  }
  | inr (f, e) ↦
      refusing (a then_check b) f (ap (λ x. x then_check b) (da.given ∙ ap ok e)) (da.failing f e)
        (λ (hp, hq). cc (da.passes.1 hp, e))
]

pub value_below : (n v : ℕ) → n ≤ 4 → v < 256 ^ n → v < 2 ^ 32
value_below zero v h lt = omega arith
value_below (suc zero) v h lt = omega arith
value_below (suc (suc zero)) v h lt = omega arith
value_below (suc (suc (suc zero))) v h lt = omega arith
value_below (suc (suc (suc (suc zero)))) v h lt = omega arith
value_below (suc (suc (suc (suc (suc n))))) v h lt = absurd (omega arith)

pub some_eq : (f g : List ℕ → Bool) → some f ≡ some g → f ≡ g
some_eq f g e = cc

module _ (p : List ℕ) (o : CorruptionCheckOptions) where
  pub length_runs :
      o.enable_length_prefix ≡ true
      → (o.length_field_size == 1 || o.length_field_size == 2 || o.length_field_size == 4) ≡ true
      → ltb (length p) (add_size o.length_field_offset o.length_field_size) ≡ false
      → check_length p o ≡ (
          read_little_endian_value p o.length_field_offset o.length_field_size
          >>= check_declared p o)
  unfolding check_length
  length_runs e s f = rw (e, s, f)

  pub crc_runs :
      (expected : ℕ)
      → o.enable_crc32 ≡ true
      → ltb (length p) (add_size o.crc32_offset 4) ≡ false
      → read_little_endian_value p o.crc32_offset 4 ≡ ok expected
      → check_crc p o ≡ (
          if not (expected == crc32_range p 0 o.crc32_offset)
          then ok (some (fail checksum_mismatch o.crc32_offset))
          else if o.strict_length_match && not (length p == add_size o.crc32_offset 4)
          then ok (some (fail invalid_field_length (add_size o.crc32_offset 4)))
          else ok none)
  unfolding check_crc
  crc_runs expected e f got = rw (e, f, got)
