-- ===== src/Reliability/Synchronizer.antt =====
-- src/reliability/packet_synchronizer.cpp: packets found in a stream of bytes that may hold others.
-- A stream holds fewer than 2 ^ 63 bytes, so that no sum of a cursor and a size wraps. The texts of
-- the messages are left out.
pub mod Stands
pub mod Finds
pub mod Recovers
use keydrop.Base.{
  ℕ, zero, suc, ◌+◌, ◌-◌, ◌/◌, Bool, true, false, not, ◌&&◌, ◌||◌, List, [], ◌∷◌, ◌++◌, Option,
  none, some,
}
use keydrop.Base.{
  length, get_or, take, drop, ltb, leb, ◌==◌, if◌then◌else◌, is_bit_set, read_u16_le, Text,
}
use keydrop.Schema.Types.{SchemaDef, is_string}
use keydrop.Schema.Layout.{FieldLayout, PacketLayout}
use keydrop.Schema.Optimizer.{
  RuntimeOptimizerResult, deoptimize_packet, optimized_marker, dictionary_string_reference_marker,
}
use keydrop.Schema.Registry.{SchemaRegistry, find_by_message_id, find_layout_by_message_id}
use keydrop.Reliability.Check.{CorruptionCheckResult}
use keydrop.Reliability.Keydrop.{check_layout}

-- The cursor behind the field; `none` is `false`.
unfoldable pub measure_variable_field : FieldLayout → List ℕ → ℕ → Option ℕ
measure_variable_field field bytes cursor =
    if ltb (length bytes) (cursor + 2)
    then none
    else let declared_size = read_u16_le bytes cursor in
      if is_string field.type && declared_size == dictionary_string_reference_marker
      then if ltb (length bytes) (cursor + 2 + 2) then none else some (cursor + 2 + 2)
      else if field.has_max_length && ltb field.max_length declared_size
      then none
      else if ltb (length bytes) (cursor + 2 + declared_size)
      then none
      else some (cursor + 2 + declared_size)

-- One round of the loop of `measure_unoptimized_packet`.
unfoldable pub measure_field : List ℕ → ℕ → FieldLayout → Option ℕ
unfolding measure_variable_field
measure_field bytes cursor field =
    if not field.variable_length
    then if ltb (length bytes) (cursor + field.fixed_size)
      then none
      else some (cursor + field.fixed_size)
    else measure_variable_field field bytes cursor

unfoldable pub measure_fields : List ℕ → ℕ → List FieldLayout → Option ℕ
measure_fields bytes cursor [] = some cursor
measure_fields bytes cursor (field ∷ rest) = elim (measure_field bytes cursor field) [
  | none ↦ none
  | some cursor' ↦ measure_fields bytes cursor' rest
]

-- The length of the packet at the offset.
unfoldable pub measure_unoptimized_packet : PacketLayout → List ℕ → ℕ → Option ℕ
measure_unoptimized_packet layout bytes offset =
    if ltb (length bytes) (offset + 2)
    then none
    else if layout.fixed_size_only
    then if ltb (length bytes) (offset + layout.fixed_packet_size)
      then none
      else some layout.fixed_packet_size
    else elim (measure_fields bytes (offset + 2) layout.fields) [
      | none ↦ none
      | some cursor ↦ some (cursor - offset)
    ]

-- One round of the loop of `measure_optimized_packet`, for the field of index `i`; the bitmap is
-- the bytes from its offset on.
unfoldable pub measure_present : List ℕ → List ℕ → ℕ → ℕ → FieldLayout → Option ℕ
unfolding measure_variable_field
measure_present bytes bitmap cursor i field =
    if not field.variable_length
    then if is_bit_set bitmap i
      then some cursor
      else if ltb (length bytes) (cursor + field.fixed_size)
      then none
      else some (cursor + field.fixed_size)
    else measure_variable_field field bytes cursor

unfoldable pub measure_presents : List ℕ → List ℕ → ℕ → ℕ → List FieldLayout → Option ℕ
measure_presents bytes bitmap cursor i [] = some cursor
measure_presents bytes bitmap cursor i (field ∷ rest) =
    elim (measure_present bytes bitmap cursor i field) [
      | none ↦ none
      | some cursor' ↦ measure_presents bytes bitmap cursor' (i + 1) rest
    ]

unfoldable pub measure_optimized_packet : PacketLayout → List ℕ → ℕ → Option ℕ
measure_optimized_packet layout bytes offset =
    if ltb (length bytes) (offset + 4)
    then none
    else if not (get_or bytes (offset + 2) 0 == optimized_marker)
    then none
    else let bitmap_size = get_or bytes (offset + 3) 0 in
      if not (bitmap_size == (length layout.fields + 7) / 8)
      then none
      else if ltb (length bytes) (offset + 4 + bitmap_size)
      then none
      else elim (measure_presents bytes (drop (offset + 4) bytes) (offset + 4 + bitmap_size) 0
          layout.fields) [ none ↦ none | some cursor ↦ some (cursor - offset) ]

unfoldable pub slice_buffer : List ℕ → ℕ → ℕ → List ℕ
slice_buffer bytes offset size = take size (drop offset bytes)

unfoldable pub candidate_is_valid : SchemaDef → PacketLayout → List ℕ → Bool
candidate_is_valid schema layout candidate =
    let deoptimized = deoptimize_packet schema candidate [] in
    if not deoptimized.0.ok then false else (check_layout deoptimized.1 layout).ok

pub data PacketSyncStatusCode : Type 0 where
  ok no_packet_found : PacketSyncStatusCode

pub record PacketSyncResult : Type 0 where
  pub code : PacketSyncStatusCode
  pub offset : ℕ
  pub skipped_bytes : ℕ
  pub message_id : ℕ
  pub schema_name : Text
  pub packet : List ℕ

unfoldable pub is_ok : PacketSyncResult → Bool
is_ok r = elim r.code [ ok ↦ true | no_packet_found ↦ false ]

abbrev pub not_found : PacketSyncResult
not_found = record {
  code = no_packet_found;
  offset = 0;
  skipped_bytes = 0;
  message_id = 0;
  schema_name = [];
  packet = [];
}

abbrev pub recovered : List ℕ → ℕ → SchemaDef → ℕ → PacketSyncResult
recovered bytes offset schema size = record {
  code = ok;
  offset = offset;
  skipped_bytes = offset;
  message_id = read_u16_le bytes offset;
  schema_name = schema.schema_name;
  packet = slice_buffer bytes offset size;
}

-- The packet's length as it is measured at an offset.
unfoldable pub measure_packet : PacketLayout → List ℕ → ℕ → Option ℕ
measure_packet layout bytes offset =
    if leb (offset + 3) (length bytes) && get_or bytes (offset + 2) 0 == optimized_marker
    then measure_optimized_packet layout bytes offset
    else measure_unoptimized_packet layout bytes offset

-- One round of the loop of `recover_next_packet`; `none` is `continue`.
unfoldable pub recover_at : SchemaRegistry → List ℕ → ℕ → Option PacketSyncResult
recover_at registry bytes offset =
    let message_id = read_u16_le bytes offset in
    elim (find_by_message_id registry message_id) [
      | none ↦ none
      | some schema ↦ elim (find_layout_by_message_id registry message_id) [
        | none ↦ none
        | some layout ↦ elim (measure_packet layout bytes offset) [
          | none ↦ none
          | some size ↦
              if not (candidate_is_valid schema layout (slice_buffer bytes offset size))
              then none
              else some (recovered bytes offset schema size)
        ]
      ]
    ]

-- The loop, for `count` offsets from the given one on.
unfoldable pub recover_from : SchemaRegistry → List ℕ → ℕ → ℕ → PacketSyncResult
recover_from registry bytes offset zero = not_found
recover_from registry bytes offset (suc count) = elim (recover_at registry bytes offset) [
  | none ↦ recover_from registry bytes (offset + 1) count
  | some result ↦ result
]

-- The offsets with `offset + 2 <= size` are those below `size - 1`.
unfoldable pub recover_next_packet : List ℕ → SchemaRegistry → PacketSyncResult
recover_next_packet stream registry =
    if ltb (length stream) 2 then not_found else recover_from registry stream 0 (length stream - 1)

-- The loop of `recover_all_packets`, on fuel.
unfoldable pub recover_loop :
    ℕ → SchemaRegistry → List ℕ → ℕ → List PacketSyncResult → Option (List PacketSyncResult)
recover_loop zero registry remaining consumed out = none
recover_loop (suc fuel) registry remaining consumed out =
    let r = recover_next_packet remaining registry in
    let next = r.skipped_bytes + length r.packet in
    let out' = out ++ (record r { offset = r.offset + consumed } ∷ []) in
    elim (length remaining == 0 || not (is_ok r)) [
      | true ↦ some out
      | false ↦ elim (leb (length remaining) next) [
        | true ↦ some out'
        | false ↦ recover_loop fuel registry (drop next remaining) (consumed + next) out'
      ]
    ]

-- The value that is returned, and `out_packets`. Each round takes a byte, so that the size of the
-- stream and one more is fuel enough.
unfoldable pub recover_all_packets : List ℕ → SchemaRegistry → Option (Bool × List PacketSyncResult)
recover_all_packets stream registry = elim (recover_loop (length stream + 1) registry stream 0 []) [
  | none ↦ none
  | some out ↦ some (not (length out == 0), out)
]
