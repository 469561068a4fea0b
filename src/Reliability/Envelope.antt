-- ===== src/Reliability/Envelope.antt =====
-- `check_packet` of src/reliability/corruption_detector.cpp: the checks that a client's options ask
-- for. The offsets are the client's, so their sums wrap at 2 ^ 64, and a read may throw.
pub mod Conditions
pub mod Reads
pub mod Accepts
use keydrop.Base.{ℕ, zero, suc, ◌+◌, ◌-◌, ◌*◌, ◌%◌, ◌^◌, Bool, true, false, not, ◌&&◌, ◌||◌}
use keydrop.Base.{
  List, [], ◌∷◌, Option, none, some, length, get_elem?, ltb, leb, ◌==◌, if◌then◌else◌, bit_or,
}
use keydrop.Base.{Result, ok, out_of_range, ◌>>=◌}
use keydrop.Reliability.Crc.{crc32_range}
use keydrop.Reliability.Check.{CorruptionErrorCode, CorruptionCheckResult, passed, fail}
use keydrop.Reliability.Check.{minimum_length_violation, truncated_read, invalid_field_length}
use keydrop.Reliability.Check.{bad_header_marker, checksum_mismatch}

pub record CorruptionCheckOptions : Type 0 where
  pub minimum_length : ℕ
  pub header_offset : ℕ
  pub expected_header : List ℕ
  pub enable_length_prefix : Bool
  pub length_field_offset : ℕ
  pub length_field_size : ℕ
  pub payload_offset : ℕ
  pub max_payload_length : ℕ
  pub strict_length_match : Bool
  pub checksum_validator : Option (List ℕ → Bool)
  pub enable_crc32 : Bool
  pub crc32_offset : ℕ

-- `packet.read(index)`
unfoldable pub read : List ℕ → ℕ → Result ℕ
read packet index = elim (get_elem? packet index) [ none ↦ out_of_range | some b ↦ ok b ]

abbrev pub add_size : ℕ → ℕ → ℕ
add_size a b = (a + b) % 2 ^ 64

-- The loop from byte `i` on, with `n` rounds left.
unfoldable pub read_little_endian_loop : List ℕ → ℕ → ℕ → ℕ → ℕ → Result ℕ
read_little_endian_loop packet offset i zero value = ok value
read_little_endian_loop packet offset i (suc n) value = do
  b ← read packet (add_size offset i)
  read_little_endian_loop packet offset (i + 1) n (bit_or value (b * 2 ^ (8 * i) % 2 ^ 32))

unfoldable pub read_little_endian_value : List ℕ → ℕ → ℕ → Result ℕ
unfolding read_little_endian_loop
read_little_endian_value packet offset size = read_little_endian_loop packet offset 0 size 0

-- A part of the checks: `none` goes on, a failure is returned.
abbrev pub Part : Type 0
Part = Result (Option CorruptionCheckResult)

unfoldable pub check_header_bytes : List ℕ → ℕ → ℕ → List ℕ → Part
check_header_bytes packet offset i [] = ok none
check_header_bytes packet offset i (expected ∷ rest) = do
  b ← read packet (add_size offset i)
  let more = check_header_bytes packet offset (i + 1) rest
  if not (b == expected) then ok (some (fail bad_header_marker (add_size offset i))) else more

unfoldable pub check_header : List ℕ → CorruptionCheckOptions → Part
check_header packet options =
    if length options.expected_header == 0
    then ok none
    else if ltb (length packet) (add_size options.header_offset (length options.expected_header))
    then ok (some (fail truncated_read (length packet)))
    else check_header_bytes packet options.header_offset 0 options.expected_header

unfoldable pub check_declared : List ℕ → CorruptionCheckOptions → ℕ → Part
check_declared packet options declared_payload =
    if not (options.max_payload_length == 0) && ltb options.max_payload_length declared_payload
    then ok (some (fail invalid_field_length options.length_field_offset))
    else let expected_total = add_size options.payload_offset declared_payload in
      if ltb (length packet) expected_total
      then ok (some (fail truncated_read (length packet)))
      else if options.strict_length_match && not (length packet == expected_total)
      then ok (some (fail invalid_field_length expected_total))
      else ok none

unfoldable pub check_length : List ℕ → CorruptionCheckOptions → Part
check_length packet options =
    if not options.enable_length_prefix
    then ok none
    else if not (
        options.length_field_size == 1
        || options.length_field_size == 2
        || options.length_field_size == 4)
    then ok (some (fail invalid_field_length options.length_field_offset))
    else if ltb (length packet) (add_size options.length_field_offset options.length_field_size)
    then ok (some (fail truncated_read (length packet)))
    else read_little_endian_value packet options.length_field_offset options.length_field_size
      >>= check_declared packet options

unfoldable pub check_checksum : List ℕ → CorruptionCheckOptions → Part
check_checksum packet options = elim options.checksum_validator [
  | none ↦ ok none
  | some validator ↦
      if not (validator packet) then ok (some (fail checksum_mismatch (length packet))) else ok none
]

unfoldable pub check_crc : List ℕ → CorruptionCheckOptions → Part
check_crc packet options =
    if not options.enable_crc32
    then ok none
    else if ltb (length packet) (add_size options.crc32_offset 4)
    then ok (some (fail truncated_read (length packet)))
    else do
      expected ← read_little_endian_value packet options.crc32_offset 4
      if not (expected == crc32_range packet 0 options.crc32_offset)
          then ok (some (fail checksum_mismatch options.crc32_offset))
          else if options.strict_length_match
              && not (length packet == add_size options.crc32_offset 4)
          then ok (some (fail invalid_field_length (add_size options.crc32_offset 4)))
          else ok none

-- The parts in order, the first failure being the result.
infixl 5 ◌then_check◌
abbrev pub ◌then_check◌ : Part → Part → Part
first then_check second = first >>= λ r. elim r [ none ↦ second | some failure ↦ ok (some failure) ]

unfoldable pub check_packet : List ℕ → CorruptionCheckOptions → Result CorruptionCheckResult
check_packet packet options =
    if ltb (length packet) options.minimum_length
    then ok (fail minimum_length_violation (length packet))
    else (check_header packet options
        then_check check_length packet options
        then_check check_checksum packet options
        then_check check_crc packet options)
      >>= λ r. elim r [ none ↦ ok passed | some failure ↦ ok failure ]
