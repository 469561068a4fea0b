-- ===== src/Reliability/Synchronizer/Finds.antt =====
-- What `recover_next_packet` finds: the first place of the stream where a packet is recovered.
use keydrop.Base.{ℕ, zero, suc, ◌+◌, ◌-◌, ◌≤◌, ◌<◌, ◌≡◌, inl, inr, refl, arith}
use keydrop.Base.{true, Bool-cases, ==_iff, Option-cases, ltb, ◌==◌}
use keydrop.Base.{List, [], ◌∷◌, none, some, length, take, drop, get_or, read_u16_le}
use keydrop.Base.{length-take}
use mathlib.Core.Path.{subst}
use keydrop.Schema.Types.{SchemaDef}
use keydrop.Schema.Layout.{FieldLayout, PacketLayout}
use keydrop.Schema.Optimizer.{deoptimize_packet, is_optimized_packet}
use keydrop.Schema.Registry.{SchemaRegistry, find_by_message_id, find_layout_by_message_id}
use keydrop.Reliability.Keydrop.{check_layout}
use keydrop.Reliability.Synchronizer.Stands.{Stands, Shaped-length, Stands-recover_at}
use keydrop.Reliability.Synchronizer.{
  measure_variable_field, measure_field, measure_fields, measure_present, measure_presents,
}
use keydrop.Reliability.Synchronizer.{
  measure_unoptimized_packet, measure_optimized_packet, measure_packet, slice_buffer,
  candidate_is_valid,
}
use keydrop.Reliability.Synchronizer.{
  PacketSyncResult, not_found, recovered, recover_at, recover_from, recover_next_packet,
}

module _ (bytes : List ℕ) where
  measure_field-inside :
      (c c' : ℕ) (f : FieldLayout)
      → measure_field bytes c f ≡ some c'
      → (c ≤ c') × (c' ≤ length bytes)
  unfolding measure_field measure_variable_field
  measure_field-inside c c' f h = ground arith

  measure_fields-inside :
      (fs : List FieldLayout) (c c' : ℕ)
      → c ≤ length bytes
      → measure_fields bytes c fs ≡ some c'
      → (c ≤ c') × (c' ≤ length bytes)
  unfolding measure_fields
  measure_fields-inside [] c c' inside h = ground arith
  measure_fields-inside (f ∷ fs) c c' inside h = elim (Option-cases (measure_field bytes c f)) [
    | inl e ↦ absurd (ground (arith, e))
    | inr (d, e) ↦
        let (up, in_) = measure_field-inside c d f e in
        let (more, last) = measure_fields-inside fs d c' in_ (ground (arith, e, h)) in
        (omega (arith, up, more), last)
  ]

  measure_present-inside :
      (m : List ℕ) (c c' i : ℕ) (f : FieldLayout)
      → c ≤ length bytes
      → measure_present bytes m c i f ≡ some c'
      → (c ≤ c') × (c' ≤ length bytes)
  unfolding measure_present measure_variable_field
  measure_present-inside m c c' i f inside h = ground arith

  measure_presents-inside :
      (fs : List FieldLayout) (m : List ℕ) (c c' i : ℕ)
      → c ≤ length bytes
      → measure_presents bytes m c i fs ≡ some c'
      → (c ≤ c') × (c' ≤ length bytes)
  unfolding measure_presents
  measure_presents-inside [] m c c' i inside h = ground arith
  measure_presents-inside (f ∷ fs) m c c' i inside h =
      elim (Option-cases (measure_present bytes m c i f)) [
        | inl e ↦ absurd (ground (arith, e))
        | inr (d, e) ↦
            let (up, in_) = measure_present-inside m c d i f inside e in
            let (more, last) =
              measure_presents-inside fs m d c' (i + 1) in_ (ground (arith, e, h)) in
            (omega (arith, up, more), last)
      ]

  -- The packet that is measured ends inside the stream.
  measure_unoptimized_packet-inside :
      (l : PacketLayout) (o n : ℕ)
      → measure_unoptimized_packet l bytes o ≡ some n
      → o + n ≤ length bytes
  unfolding measure_unoptimized_packet
  measure_unoptimized_packet-inside l o n h =
      elim (Option-cases (measure_fields bytes (o + 2) l.fields)) [
        | inl e ↦ ground (arith, e)
        | inr (c, e) ↦ ground (arith, e, measure_fields-inside l.fields (o + 2) c)
      ]

  measure_optimized_packet-inside :
      (l : PacketLayout) (o n : ℕ)
      → measure_optimized_packet l bytes o ≡ some n
      → o + n ≤ length bytes
  unfolding measure_optimized_packet
  measure_optimized_packet-inside l o n h =
      let size = get_or bytes (o + 3) 0 in
      let m = drop (o + 4) bytes in
      elim (Option-cases (measure_presents bytes m (o + 4 + size) 0 l.fields)) [
        | inl e ↦ absurd (ground (arith, e))
        | inr (c, e) ↦ ground (arith, e, measure_presents-inside l.fields m (o + 4 + size) c 0)
      ]

  measure_packet-inside :
      (l : PacketLayout) (o n : ℕ) → measure_packet l bytes o ≡ some n → o + n ≤ length bytes
  unfolding measure_packet
  measure_packet-inside l o n h =
      ground (arith, measure_unoptimized_packet-inside l o n, measure_optimized_packet-inside l o n)

-- A candidate that is valid is not empty.
candidate_is_valid-length :
    (s : SchemaDef) (l : PacketLayout) (p : List ℕ) → candidate_is_valid s l p ≡ true → 1 ≤ length p
unfolding candidate_is_valid deoptimize_packet check_layout is_optimized_packet
candidate_is_valid-length s l [] h = absurd (ground arith)
candidate_is_valid-length s l (x ∷ p) h = omega arith

-- At the offset `o` of the stream stands a packet of `n` bytes of a registered schema, which a
-- deoptimizer restores and the corruption check accepts.
pub record PacketAt (registry : SchemaRegistry) (stream : List ℕ) (o n : ℕ) (s : SchemaDef)
    : Type 0 where
  pub layout : PacketLayout
  pub found : find_by_message_id registry (read_u16_le stream o) ≡ some s
  pub laid_out : find_layout_by_message_id registry (read_u16_le stream o) ≡ some layout
  pub some_bytes : 1 ≤ n
  pub inside : o + n ≤ length stream
  pub valid : candidate_is_valid s layout (take n (drop o stream)) ≡ true

module _ (registry : SchemaRegistry) (stream : List ℕ) where
  recover_at-PacketAt :
      (o : ℕ) (r : PacketSyncResult)
      → recover_at registry stream o ≡ some r
      → (s : SchemaDef) × (n : ℕ) × PacketAt registry stream o n s × (r ≡ recovered stream o s n)
  unfolding recover_at slice_buffer
  recover_at-PacketAt o r h =
      let id = read_u16_le stream o in
      elim (Option-cases (find_by_message_id registry id)) [
        | inl e ↦ absurd (ground (arith, e))
        | inr (s, e) ↦ elim (Option-cases (find_layout_by_message_id registry id)) [
          | inl d ↦ absurd (ground (arith, e, d))
          | inr (l, d) ↦ elim (Option-cases (measure_packet l stream o)) [
            | inl m ↦ absurd (ground (arith, e, d, m))
            | inr (n, m) ↦
                let p = take n (drop o stream) in
                let inside = measure_packet-inside stream l o n m in
                let valid : candidate_is_valid s l p ≡ true = ground (arith, e, d, m) in
                let some_bytes : 1 ≤ n =
                  omega
                    (arith, candidate_is_valid-length s l p valid, length-take n (drop o stream)) in
                (
                  s,
                  n,
                  record {
                    layout = l;
                    found = e;
                    laid_out = d;
                    some_bytes = some_bytes;
                    inside = inside;
                    valid = valid;
                  },
                  ground (arith, e, d, m),
                )
          ]
        ]
      ]

  -- The rounds before the first one that recovers a packet, or all of them.
  pub data First (o : ℕ) : ℕ → PacketSyncResult → Type 0 where
    nowhere :
        {n : ℕ}
        → ((k : ℕ) → o ≤ k → k < o + n → recover_at registry stream k ≡ none)
        → First o n not_found
    there :
        {n : ℕ} {r : PacketSyncResult} (k : ℕ)
        → o ≤ k
        → k < o + n
        → recover_at registry stream k ≡ some r
        → ((j : ℕ) → o ≤ j → j < k → recover_at registry stream j ≡ none)
        → First o n r

  earlier :
      (o b : ℕ)
      → recover_at registry stream o ≡ none
      → ((j : ℕ) → o + 1 ≤ j → j < b → recover_at registry stream j ≡ none)
      → (j : ℕ) → o ≤ j
      → j < b
      → recover_at registry stream j ≡ none
  earlier o b e f j above below = elim (Bool-cases (o == j)) [
    | inl h ↦ subst (λ k. recover_at registry stream k ≡ none) ((==_iff o j).0 h) e
    | inr h ↦ f j (ground (arith, h)) below
  ]

  First-step :
      (o n : ℕ) (r : PacketSyncResult)
      → recover_at registry stream o ≡ none
      → First (o + 1) n r
      → First o (suc n) r
  First-step o n r e (nowhere f) =
      nowhere
        (λ k above below. earlier o (o + suc n) e (λ j up low. f j up (omega arith)) k above below)
  First-step o n r e (there k above below h f) =
      there k (omega arith) (omega arith) h (earlier o k e f)

  recover_from-First : (o n : ℕ) → First o n (recover_from registry stream o n)
  unfolding recover_from
  recover_from-First o zero = nowhere (λ k above below. absurd (omega arith))
  recover_from-First o (suc n) = elim (Option-cases (recover_at registry stream o)) [
    | inl e ↦
        subst (First o (suc n)) (ground (arith, e))
          (First-step o n (recover_from registry stream (o + 1) n) e (recover_from-First (o + 1) n))
    | inr (r, e) ↦
        subst (First o (suc n)) (ground (arith, e))
          (there {r = r} o (omega arith) (omega arith) e (λ j above below. absurd (omega arith)))
  ]

-- Where no packet is recovered, none stands.
none-Stands :
    (registry : SchemaRegistry) (stream : List ℕ) (k n : ℕ) (s : SchemaDef)
    → (k + 2 ≤ length stream → recover_at registry stream k ≡ none)
    → Stands registry stream k n s
    → ⊥
none-Stands registry stream k n s nothing_there h =
    let e = nothing_there (Shaped-length s stream k n h.shaped) in
    cc (e, Stands-recover_at registry stream k n s h)

-- What a call gives: a packet that is in the stream, with no packet at an offset before; or nothing,
-- where no packet stands at any offset.
pub data Outcome (registry : SchemaRegistry) (stream : List ℕ) (r : PacketSyncResult) : Type 0 where
  nothing :
      r ≡ not_found
      → ((k n : ℕ) (s : SchemaDef) → Stands registry stream k n s → ⊥)
      → Outcome registry stream r
  packet_at :
      (o n : ℕ) (s : SchemaDef)
      → PacketAt registry stream o n s
      → r ≡ recovered stream o s n
      → ((j m : ℕ) (t : SchemaDef) → j < o → Stands registry stream j m t → ⊥)
      → Outcome registry stream r

First-Outcome :
    (registry : SchemaRegistry) (stream : List ℕ) (n : ℕ) (r : PacketSyncResult)
    → n ≡ length stream - 1
    → First registry stream 0 n r
    → Outcome registry stream r
First-Outcome registry stream n r e (nowhere f) =
    nothing refl
      (λ k m s. none-Stands registry stream k m s (λ h. f k (omega arith) (omega (arith, e))))
First-Outcome registry stream n r e (there k above below h f) =
    let (s, size, place, same) = recover_at-PacketAt registry stream k r h in
    packet_at k size s place same
      (λ j m t low. none-Stands registry stream j m t (λ long. f j (omega arith) low))

-- The recovery of the next packet gives the bytes of the stream that stand at its offset, which
-- make a packet of a registered schema that the deoptimizer and the corruption check accept, with
-- that schema's name and the id that is read there; and at no offset before stand bytes that have
-- the form of a plain or of an optimized packet of a registered schema and that the two accept.
-- Else it reports that it found none, and then such bytes stand at no offset.
pub recover_next_packet-Outcome :
    (registry : SchemaRegistry) (stream : List ℕ)
    → Outcome registry stream (recover_next_packet stream registry)
unfolding recover_next_packet
recover_next_packet-Outcome registry stream = elim (Bool-cases (ltb (length stream) 2)) [
  | inl h ↦ subst (Outcome registry stream) (ground (arith, h)) (
      nothing refl (λ k n s. none-Stands registry stream k n s (λ low. absurd (ground (arith, h)))))
  | inr h ↦ subst (Outcome registry stream) (ground (arith, h)) (
      First-Outcome registry stream (length stream - 1)
        (recover_from registry stream 0 (length stream - 1)) refl
        (recover_from-First registry stream 0 (length stream - 1)))
]
