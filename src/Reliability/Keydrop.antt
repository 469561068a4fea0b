-- ===== src/Reliability/Keydrop.antt =====
-- `check_keydrop_packet` of src/reliability/corruption_detector.cpp: the walk over a packet along
-- the layout of its schema. A vector holds fewer than 2 ^ 63 bytes, so that no sum of a cursor and
-- a field's size wraps.
pub mod Conforms
pub mod Packets
pub mod Values
use keydrop.Base.{ℕ, ◌+◌, Bool, true, false, not, ◌&&◌, List, [], ◌∷◌, length, ltb, ◌==◌}
use keydrop.Base.{if◌then◌else◌, read_u16_le}
use keydrop.Schema.Types.{SchemaDef, is_string}
use keydrop.Schema.Layout.{FieldLayout, PacketLayout, build_packet_layout}
use keydrop.Reliability.Check.{CorruptionErrorCode, CorruptionCheckResult, passed, fail}
use keydrop.Reliability.Check.{minimum_length_violation, truncated_read, invalid_field_length}
use keydrop.Reliability.Check.{message_id_mismatch, packet_boundary_mismatch}
use keydrop.Schema.Optimizer.{dictionary_string_reference_marker}

-- One round of the loop: the cursor behind the field, or the failure that is returned.
pub data Walk : Type 0 where
  moved : ℕ → Walk
  failed : CorruptionCheckResult → Walk

unfoldable pub check_field : List ℕ → ℕ → FieldLayout → Walk
check_field packet cursor field =
    if not field.variable_length
    then if ltb (length packet) (cursor + field.fixed_size)
      then failed (fail truncated_read cursor)
      else moved (cursor + field.fixed_size)
    else if ltb (length packet) (cursor + 2)
    then failed (fail truncated_read cursor)
    else let declared_size = read_u16_le packet cursor in
      if is_string field.type && declared_size == dictionary_string_reference_marker
      then if ltb (length packet) (cursor + 2 + 2)
        then failed (fail truncated_read (cursor + 2))
        else moved (cursor + 2 + 2)
      else if field.has_max_length && ltb field.max_length declared_size
      then failed (fail invalid_field_length cursor)
      else if ltb (length packet) (cursor + 2 + declared_size)
      then failed (fail truncated_read (cursor + 2))
      else moved (cursor + 2 + declared_size)

unfoldable pub check_fields : List ℕ → ℕ → List FieldLayout → CorruptionCheckResult
check_fields packet cursor [] =
    if not (cursor == length packet) then fail packet_boundary_mismatch cursor else passed
check_fields packet cursor (field ∷ rest) = elim (check_field packet cursor field) [
  | moved cursor' ↦ check_fields packet cursor' rest
  | failed result ↦ result
]

unfoldable pub check_layout : List ℕ → PacketLayout → CorruptionCheckResult
check_layout packet layout =
    if ltb (length packet) 2
    then fail minimum_length_violation (length packet)
    else if not (read_u16_le packet 0 == layout.message_id)
    then fail message_id_mismatch 0
    else if layout.fixed_size_only
    then if ltb (length packet) layout.fixed_packet_size
      then fail truncated_read (length packet)
      else if not (length packet == layout.fixed_packet_size)
      then fail packet_boundary_mismatch layout.fixed_packet_size
      else passed
    else check_fields packet 2 layout.fields

unfoldable pub check_keydrop_packet : List ℕ → SchemaDef → CorruptionCheckResult
unfolding check_layout
check_keydrop_packet packet schema = check_layout packet (build_packet_layout schema)
