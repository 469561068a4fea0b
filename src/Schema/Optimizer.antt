-- ===== src/Schema/Optimizer.antt =====
-- src/schema/runtime_optimizer.cpp: zero-value omission. The optimized packet is the message id, a
-- marker, the size of a bitmap, the bitmap of the omitted fields, and the other fields' bytes.
-- A vector holds fewer than 2 ^ 63 bytes, so that no sum of a cursor and a size wraps.
pub mod Restores
pub mod Trace
pub mod RoundTrip
use keydrop.Base.{ℕ, zero, suc, ◌+◌, ◌-◌, ◌/◌, ◌%◌, ◌^◌, Bool, true, false, not, ◌&&◌, ◌||◌}
use keydrop.Base.{List, [], ◌∷◌, ◌++◌, Option, none, some, length, get_or, take, drop, replicate}
use keydrop.Base.{ltb, leb, ◌==◌, if◌then◌else◌, is_bit_set, set_bit, read_u16_le}
use keydrop.Schema.Types.{
  FieldType, FieldDef, SchemaDef, is_string, is_bytes, try_field_type_fixed_size,
}

pub record RuntimeOptimizerConfig : Type 0 where
  pub enabled : Bool
  pub enable_zero_value_omission : Bool

pub record RuntimeOptimizerResult : Type 0 where
  pub ok : Bool
  pub applied : Bool
  pub bytes_saved : ℕ

abbrev pub optimized_marker : ℕ
optimized_marker = 0xFD

abbrev pub dictionary_string_reference_marker : ℕ
dictionary_string_reference_marker = 0xFFFF

unfoldable pub all_zero : List ℕ → ℕ → ℕ → Bool
all_zero bytes offset zero = true
all_zero bytes offset (suc size) =
    let rest = all_zero bytes (offset + 1) size in
    if not (get_or bytes offset 0 == 0) then false else rest

-- The bytes of a variable field at the cursor, its prefix included; the prefix is there to read.
unfoldable pub total_size : FieldType → List ℕ → ℕ → ℕ
total_size type bytes cursor =
    let data_size = read_u16_le bytes cursor in
    if is_string type && data_size == dictionary_string_reference_marker then 4 else 2 + data_size

-- What the loop of `optimize_packet` changes.
pub record Optimizing : Type 0 where
  pub cursor : ℕ
  pub bitmap : List ℕ
  pub body : List ℕ

-- One round, for the field of index `i`; `none` is a return with `ok` false.
unfoldable pub optimize_field : List ℕ → Optimizing → ℕ → FieldType → Option Optimizing
optimize_field bytes s i type = elim (try_field_type_fixed_size type) [
  | some fixed_size ↦
      if ltb (length bytes) (s.cursor + fixed_size)
      then none
      else if all_zero bytes s.cursor fixed_size
      then some (record s { bitmap = set_bit s.bitmap i; cursor = s.cursor + fixed_size })
      else some (record s {
        body = s.body ++ take fixed_size (drop s.cursor bytes);
        cursor = s.cursor + fixed_size;
      })
  | none ↦
      if is_string type || is_bytes type
      then if ltb (length bytes) (s.cursor + 2)
        then none
        else if ltb (length bytes) (s.cursor + total_size type bytes s.cursor)
        then none
        else some (record s {
          body = s.body ++ take (total_size type bytes s.cursor) (drop s.cursor bytes);
          cursor = s.cursor + total_size type bytes s.cursor;
        })
      else none
]

unfoldable pub optimize_fields : List ℕ → Optimizing → ℕ → List FieldDef → Option Optimizing
optimize_fields bytes s i [] = some s
optimize_fields bytes s i (field ∷ rest) = elim (optimize_field bytes s i field.type) [
  | none ↦ none
  | some s' ↦ optimize_fields bytes s' (i + 1) rest
]

abbrev pub result : Bool → Bool → ℕ → RuntimeOptimizerResult
result ok applied saved = record { ok = ok; applied = applied; bytes_saved = saved }

-- The optimized packet that is written.
abbrev pub candidate : List ℕ → Optimizing → List ℕ
candidate input s =
    get_or input 0 0
    ∷ get_or input 1 0
    ∷ optimized_marker
    ∷ (length s.bitmap % 2 ^ 8)
    ∷ (s.bitmap ++ s.body)

-- The result, and what `output_packet` holds afterwards.
unfoldable pub optimize_packet :
    SchemaDef → List ℕ → List ℕ → RuntimeOptimizerConfig → RuntimeOptimizerResult × List ℕ
optimize_packet schema input output config =
    if not config.enabled || not config.enable_zero_value_omission
    then (result true false 0, output)
    else if ltb (length input) 2 || ltb 2040 (length schema.fields)
    then (result false false 0, output)
    else elim (optimize_fields input
        (record { cursor = 2; bitmap = replicate ((length schema.fields + 7) / 8) 0; body = [] }) 0
        schema.fields) [
          | none ↦ (result false false 0, input)
          | some s ↦
              if not (s.cursor == length input)
              then (result false false 0, input)
              else if leb (length input) (length (candidate input s))
              then (result true false 0, input)
              else (result true true (length input - length (candidate input s)), candidate input s)
        ]

unfoldable pub is_optimized_packet : List ℕ → Bool
is_optimized_packet packet = leb 3 (length packet) && get_or packet 2 0 == optimized_marker

-- What the loop of `deoptimize_packet` changes.
pub record Restoring : Type 0 where
  pub cursor : ℕ
  pub restored : List ℕ

unfoldable pub deoptimize_field : List ℕ → List ℕ → Restoring → ℕ → FieldType → Option Restoring
deoptimize_field bytes bitmap s i type = elim (try_field_type_fixed_size type) [
  | some fixed_size ↦
      if is_bit_set bitmap i
      then some (record s { restored = s.restored ++ replicate fixed_size 0 })
      else if ltb (length bytes) (s.cursor + fixed_size)
      then none
      else some (record {
        restored = s.restored ++ take fixed_size (drop s.cursor bytes);
        cursor = s.cursor + fixed_size;
      })
  | none ↦
      if is_string type || is_bytes type
      then if ltb (length bytes) (s.cursor + 2)
        then none
        else if ltb (length bytes) (s.cursor + total_size type bytes s.cursor)
        then none
        else some (record {
          restored = s.restored ++ take (total_size type bytes s.cursor) (drop s.cursor bytes);
          cursor = s.cursor + total_size type bytes s.cursor;
        })
      else none
]

unfoldable pub deoptimize_fields :
    List ℕ → List ℕ → Restoring → ℕ → List FieldDef → Option Restoring
deoptimize_fields bytes bitmap s i [] = some s
deoptimize_fields bytes bitmap s i (field ∷ rest) =
    elim (deoptimize_field bytes bitmap s i field.type) [
      | none ↦ none
      | some s' ↦ deoptimize_fields bytes bitmap s' (i + 1) rest
    ]

-- `input_packet.size() - restored.size()` wraps.
unfoldable pub deoptimize_packet : SchemaDef → List ℕ → List ℕ → RuntimeOptimizerResult × List ℕ
deoptimize_packet schema input output =
    if not (is_optimized_packet input)
    then (result true false 0, input)
    else if ltb (length input) 4
    then (result false false 0, output)
    else let bitmap_size = get_or input 3 0 in
      if not (bitmap_size == (length schema.fields + 7) / 8) || ltb (length input) (4 + bitmap_size)
      then (result false false 0, output)
      else elim (deoptimize_fields input (take bitmap_size (drop 4 input))
          (record { cursor = 4 + bitmap_size; restored = get_or input 0 0 ∷ get_or input 1 0 ∷ [] })
          0 schema.fields) [
            | none ↦ (result false false 0, output)
            | some s ↦ if not (s.cursor == length input) then (result false false 0, output) else (
              result true true ((length input + 2 ^ 64 - length s.restored) % 2 ^ 64),
              s.restored,
            )
          ]
