-- ===== src/Reliability/Check.antt =====
-- The results of src/reliability/corruption_detector.cpp. The texts of the messages are left out.
use keydrop.Base.{ℕ, Bool, true, false}

pub data CorruptionErrorCode : Type 0 where
  ok minimum_length_violation truncated_read invalid_field_length : CorruptionErrorCode
  bad_header_marker message_id_mismatch packet_boundary_mismatch checksum_mismatch :
      CorruptionErrorCode

pub record CorruptionCheckResult : Type 0 where
  pub ok : Bool
  pub error_code : CorruptionErrorCode
  pub offset : ℕ

abbrev pub passed : CorruptionCheckResult
passed = record { ok = true; error_code = CorruptionErrorCode.ok; offset = 0 }

abbrev pub fail : CorruptionErrorCode → ℕ → CorruptionCheckResult
fail code offset = record { ok = false; error_code = code; offset = offset }
