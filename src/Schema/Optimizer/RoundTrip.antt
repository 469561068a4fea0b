-- ===== src/Schema/Optimizer/RoundTrip.antt =====
-- `deoptimize_packet` undoes `optimize_packet`.
use keydrop.Base.{ℕ, ◌+◌, ◌-◌, ◌/◌, ◌%◌, ◌^◌, ◌≤◌, ◌<◌, ◌≡◌, ◌≢◌, refl, sym, ap, ◌∙◌, arith}
use keydrop.Base.{true, false, Option-cases, inl, inr, List, [], ◌∷◌, some}
use keydrop.Base.{length, get_or, take, drop, replicate, length-append}
use keydrop.Base.{take_all, take-append, drop-append, drop-drop, length-replicate}
use keydrop.Base.{is_bit_set-replicate, replicate-IsByte}
use keydrop.Schema.Types.{SchemaDef}
use keydrop.Schema.Optimizer.{Restoring, deoptimize_fields}
use keydrop.Schema.Optimizer.{RuntimeOptimizerConfig, Optimizing, optimize_packet}
use keydrop.Schema.Optimizer.{
  optimize_fields, deoptimize_packet, is_optimized_packet, candidate, result,
}
use keydrop.Schema.Optimizer.Trace.{Trace-bitmap}
use keydrop.Schema.Optimizer.Trace.{optimize_fields-Ends}
use keydrop.Schema.Optimizer.Restores.{at, Trace-deoptimize}

abbrev IsOn : RuntimeOptimizerConfig → Type 0
IsOn config = (config.enabled ≡ true) × (config.enable_zero_value_omission ≡ true)

-- A call that applies the optimization ran the loop over the whole packet, and wrote the candidate.
record Applied (schema : SchemaDef) (input out : List ℕ) (saved : ℕ) : Type 0 where
  state : Optimizing
  enough : 2 ≤ length input
  few : length schema.fields ≤ 2040
  ran :
      optimize_fields input
        (record { cursor = 2; bitmap = replicate ((length schema.fields + 7) / 8) 0; body = [] })
        0
        schema.fields
      ≡ some state
  whole : state.cursor ≡ length input
  written : out ≡ candidate input state
  shorter : length out + saved ≡ length input
  gain : 0 < saved

applied_facts :
    (schema : SchemaDef) (input output out : List ℕ) (config : RuntimeOptimizerConfig) (saved : ℕ)
    (s : Optimizing)
    → optimize_fields input
        (record { cursor = 2; bitmap = replicate ((length schema.fields + 7) / 8) 0; body = [] })
        0
        schema.fields
      ≡ some s
    → optimize_packet schema input output config ≡ (result true true saved, out)
    → (2 ≤ length input)
      × (length schema.fields ≤ 2040)
      × (s.cursor ≡ length input)
      × (out ≡ candidate input s)
      × (length (candidate input s) < length input)
      × (saved ≡ length input - length (candidate input s))
unfolding optimize_packet
applied_facts schema input output out config saved s e h = ground arith

optimize_packet-Applied :
    (schema : SchemaDef) (input output out : List ℕ) (config : RuntimeOptimizerConfig) (saved : ℕ)
    → optimize_packet schema input output config ≡ (result true true saved, out)
    → Applied schema input out saved
unfolding optimize_packet
optimize_packet-Applied schema input output out config saved h =
    elim (Option-cases (
      optimize_fields input
        (record { cursor = 2; bitmap = replicate ((length schema.fields + 7) / 8) 0; body = [] }) 0
        schema.fields)) [
          | inl e ↦ absurd (ground arith)
          | inr (s, e) ↦
              let (enough, few, whole, written, less, saving) =
                applied_facts schema input output out config saved s e h in
              record {
                state = s;
                enough = enough;
                few = few;
                ran = e;
                whole = whole;
                written = written;
                shorter = omega (arith, ap length written);
                gain = omega arith;
              }
        ]

candidate_head :
    (input : List ℕ) (s : Optimizing)
    → length s.bitmap < 256
    → (is_optimized_packet (candidate input s) ≡ true)
      × (get_or (candidate input s) 3 0 ≡ length s.bitmap)
      × (take (length s.bitmap) (drop 4 (candidate input s)) ≡ s.bitmap)
      × (drop (4 + length s.bitmap) (candidate input s) ≡ s.body)
      × (length (candidate input s) ≡ 4 + length s.bitmap + length s.body)
unfolding is_optimized_packet
candidate_head input s small = (
  ground arith,
  omega arith,
  take-append s.bitmap s.body (length s.bitmap) refl,
  sym (drop-drop (length s.bitmap) 4 (candidate input s))
      ∙ drop-append s.bitmap s.body (length s.bitmap) refl,
  omega (arith, length-append s.bitmap s.body),
)

take_two : (l : List ℕ) → 2 ≤ length l → get_or l 0 0 ∷ get_or l 1 0 ∷ [] ≡ take 2 l
take_two [] h = absurd (omega arith)
take_two (a ∷ []) h = absurd (omega arith)
take_two (a ∷ b ∷ l) h = refl

-- Restoring an optimized packet, in terms of what its header holds.
deoptimize_optimized :
    (schema : SchemaDef) (os output m : List ℕ) (s : Restoring)
    → is_optimized_packet os ≡ true
    → get_or os 3 0 ≡ length m
    → length m ≡ (length schema.fields + 7) / 8
    → 4 + length m ≤ length os
    → take (length m) (drop 4 os) ≡ m
    → deoptimize_fields os m
        (at (4 + length m) (get_or os 0 0 ∷ get_or os 1 0 ∷ []))
        0
        schema.fields
      ≡ some s
    → s.cursor ≡ length os
    → deoptimize_packet schema os output
      ≡ (result true true ((length os + 2 ^ 64 - length s.restored) % 2 ^ 64), s.restored)
unfolding deoptimize_packet
deoptimize_optimized schema os output m s marked size expected room bits ran whole = ground arith

-- The restoring loop on the candidate, from its header on.
restored :
    (schema : SchemaDef) (input : List ℕ) (s : Optimizing)
    → 2 ≤ length input
    → length schema.fields ≤ 2040
    → optimize_fields input
        (record { cursor = 2; bitmap = replicate ((length schema.fields + 7) / 8) 0; body = [] })
        0
        schema.fields
      ≡ some s
    → s.cursor ≡ length input
    → (output : List ℕ)
    → deoptimize_packet schema (candidate input s) output
      ≡ (result true true ((length (candidate input s) + 2 ^ 64 - length input) % 2 ^ 64), input)
restored schema input s enough few ran whole output =
    let k = (length schema.fields + 7) / 8 in
    let (out, body, trace) = optimize_fields-Ends input schema.fields _ s 0 ran in
    let fresh = length-replicate {A = ℕ} k 0 in
    let room : (0 + length schema.fields + 7) / 8 ≤ length (replicate {A = ℕ} k 0) =
      omega (arith, fresh) in
    let kept = (Trace-bitmap trace (replicate-IsByte k) room).0 ∙ fresh in
    let (marked, size, bits, next, all) = candidate_head input s (omega (arith, kept)) in
    let os = candidate input s in
    let d = 4 + length s.bitmap in
    let front = take_two input enough in
    let ran' : deoptimize_fields os s.bitmap (at d (get_or os 0 0 ∷ get_or os 1 0 ∷ [])) 0
          schema.fields
        ≡ some (at (d + length out) (take s.cursor input)) =
      ap (λ l. deoptimize_fields os s.bitmap (at d l) 0 schema.fields) front
      ∙ Trace-deoptimize os d trace (replicate-IsByte k) room (λ j le. is_bit_set-replicate k j)
          (omega (arith, all)) (next ∙ body) in
    let same : take s.cursor input ≡ input = ap (λ c. take c input) whole ∙ take_all input in
    deoptimize_optimized schema os output s.bitmap (at (d + length out) (take s.cursor input))
      marked size kept (omega (arith, all)) bits ran' (omega (arith, all, ap length body))
    ∙ ap (λ l. (result true true ((length os + 2 ^ 64 - length l) % 2 ^ 64), l)) same

-- Where the optimizer applies, its output is shorter than the packet by the bytes that it reports,
-- and the deoptimizer gives the packet back. The deoptimizer's own report of bytes saved is the
-- negative difference, wrapped to 64 bits.
pub deoptimize-optimize :
    (schema : SchemaDef) (input output out : List ℕ) (config : RuntimeOptimizerConfig) (saved : ℕ)
    → length input < 2 ^ 63
    → optimize_packet schema input output config ≡ (result true true saved, out)
    → (length out + saved ≡ length input)
      × (0 < saved)
      × (deoptimize_packet schema out output ≡ (result true true (2 ^ 64 - saved), input))
deoptimize-optimize schema input output out config saved limit h =
    let a = optimize_packet-Applied schema input output out config saved h in
    (
      a.shorter,
      a.gain,
      ap (λ o. deoptimize_packet schema o output) a.written
          ∙ restored schema input a.state a.enough a.few a.ran a.whole output
          ∙ ap (λ n. (result true true n, input))
              (omega (arith, ap length a.written, a.shorter, a.gain)),
    )

-- A packet that the optimizer left as it was may carry the marker's value as its third byte. The
-- deoptimizer gives back a packet that does not, and refuses one that does, unless the fourth byte
-- is the bitmap's size.
pub deoptimize_plain :
    (schema : SchemaDef) (input output : List ℕ)
    → (is_optimized_packet input ≡ false
        → deoptimize_packet schema input output ≡ (result true false 0, input))
      × (is_optimized_packet input ≡ true
          → get_or input 3 0 ≢ (length schema.fields + 7) / 8
          → deoptimize_packet schema input output ≡ (result false false 0, output))
unfolding deoptimize_packet
deoptimize_plain schema input output = (λ h. ground arith, λ h ne. ground arith)
