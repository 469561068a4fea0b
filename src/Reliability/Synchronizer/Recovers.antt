-- ===== src/Reliability/Synchronizer/Recovers.antt =====
-- `recover_all_packets`: the loop ends, and its packets stand one behind another in the stream.
use keydrop.Base.{ℕ, zero, suc, ◌+◌, ◌-◌, ◌≤◌, ◌<◌, ◌≡◌, inl, inr, refl, sym, ap, ◌∙◌, arith}
use keydrop.Base.{true, false, not, Bool-cases, leb, ◌==◌}
use keydrop.Base.{List, [], ◌∷◌, ◌++◌, Option, some, length, take, drop}
use keydrop.Base.{length-take, length-drop, drop-drop, append_assoc, append-nil}
use mathlib.Core.Path.{subst}
use keydrop.Schema.Registry.{SchemaRegistry}
use keydrop.Reliability.Synchronizer.{
  PacketSyncResult, is_ok, recover_next_packet, recover_loop, recover_all_packets, slice_buffer,
}
use keydrop.Reliability.Synchronizer.Finds.{
  Outcome, nothing, packet_at, recover_next_packet-Outcome,
}

-- The packets that are recovered from the place `c` of the stream on. Each is what the recovery of
-- the next packet gives on the rest of the stream, with its offset in the whole stream; it is not
-- empty, is the slice of the stream at that offset, and the next one is looked for behind it. The
-- last one ends the stream, or nothing is recovered from the bytes behind it.
pub data Run (registry : SchemaRegistry) (stream : List ℕ)
    : ℕ → List PacketSyncResult → Type 0 where
  ended : {c : ℕ} → c ≡ length stream → Run registry stream c []
  stuck :
      {c : ℕ}
      → c < length stream
      → is_ok (recover_next_packet (drop c stream) registry) ≡ false
      → Run registry stream c []
  next :
      {c : ℕ} {rs : List PacketSyncResult} (r : PacketSyncResult)
      → r ≡ recover_next_packet (drop c stream) registry
      → is_ok r ≡ true
      → 1 ≤ length r.packet
      → r.packet ≡ take (length r.packet) (drop (r.offset + c) stream)
      → Run registry stream (c + (r.offset + length r.packet)) rs
      → Run registry stream c (record r { offset = r.offset + c } ∷ rs)

-- What a round learns from the recovery of the next packet, on what is left from `c` on.
Round : List ℕ → ℕ → PacketSyncResult → Type 0
Round stream c r =
    (1 ≤ length r.packet)
    × (c + r.offset + length r.packet ≤ length stream)
    × (r.skipped_bytes ≡ r.offset)
    × (r.packet ≡ take (length r.packet) (drop (r.offset + c) stream))

Outcome-Round :
    (registry : SchemaRegistry) (stream : List ℕ) (c : ℕ) (r : PacketSyncResult)
    → c ≤ length stream
    → is_ok r ≡ true
    → Outcome registry (drop c stream) r
    → Round stream c r
unfolding Round is_ok slice_buffer
Outcome-Round registry stream c r inside ok (nothing e f) = absurd (ground (arith, e))
Outcome-Round registry stream c r inside ok (packet_at o n s place e f) =
    let off : r.offset ≡ o = ap (λ x. x.offset) e in
    let packet : r.packet ≡ take n (drop o (drop c stream)) = ap (λ x. x.packet) e in
    let size : length r.packet ≡ n = omega (
      arith,
      ap length packet,
      length-take n (drop o (drop c stream)),
      length-drop o (drop c stream),
      place.inside,
    ) in
    let order : c + o ≡ o + c = omega arith in
    let slice : r.packet ≡ take n (drop (o + c) stream) =
      packet ∙ ap (take n) (drop-drop o c stream ∙ ap (λ k. drop k stream) order) in
    (
      omega (arith, size, place.some_bytes),
      omega (arith, size, off, place.inside, length-drop c stream, place.some_bytes),
      ap (λ x. x.skipped_bytes) e ∙ sym off,
      subst (λ k. r.packet ≡ take k (drop (r.offset + c) stream)) (sym size)
          (subst (λ k. r.packet ≡ take n (drop (k + c) stream)) (sym off) slice),
    )

-- From a place with fuel for each byte behind it, the loop ends, with the packets of a run behind
-- those that were there.
Ends : SchemaRegistry → List ℕ → ℕ → ℕ → List PacketSyncResult → Type 0
Ends registry stream fuel c out =
    (rs : List PacketSyncResult) × (recover_loop fuel registry (drop c stream) c out
      ≡ some (out ++ rs))
    × Run registry stream c rs

recover_loop-Ends :
    (registry : SchemaRegistry) (stream : List ℕ) (fuel c : ℕ) (out : List PacketSyncResult)
    → c ≤ length stream
    → length stream - c < fuel
    → Ends registry stream fuel c out
unfolding Ends Round recover_loop
recover_loop-Ends registry stream zero c out inside enough = absurd (omega arith)
recover_loop-Ends registry stream (suc fuel) c out inside enough =
    let rest = drop c stream in
    let left = length-drop c stream in
    let r = recover_next_packet rest registry in
    elim (Bool-cases (length rest == 0)) [
      | inl empty ↦ ([], ground (arith, empty, append-nil out), ended (ground (arith, empty, left)))
      | inr some_left ↦ elim (Bool-cases (is_ok r)) [
        | inr bad ↦
            ([], ground (arith, bad, append-nil out), stuck (ground (arith, some_left, left)) bad)
        | inl good ↦
            let (one, within, skipped, slice) =
              Outcome-Round registry stream c r inside good
                (recover_next_packet-Outcome registry rest) in
            let c' = c + (r.offset + length r.packet) in
            let r' : PacketSyncResult = record r { offset = r.offset + c } in
            elim (Bool-cases (leb (length rest) (r.skipped_bytes + length r.packet))) [
              | inl last ↦ (
                r' ∷ [],
                ground (arith, some_left, good, last),
                next r refl good one slice (ended (ground (arith, last, skipped, within, left))),
              )
              | inr more ↦
                  let (rs, e, run) =
                    recover_loop-Ends registry stream fuel c' (out ++ (r' ∷ []))
                      (omega (arith, within)) (omega (arith, within, one)) in
                  let k = r.skipped_bytes + length r.packet in
                  let loop : List ℕ → ℕ → Option (List PacketSyncResult) =
                    λ l j. recover_loop fuel registry l j (out ++ (r' ∷ [])) in
                  let one_round : recover_loop (suc fuel) registry rest c out
                      ≡ loop (drop k rest) (c + k) =
                    ground (arith, some_left, good, more) in
                  let same : k ≡ r.offset + length r.packet =
                    ap (λ n. n + length r.packet) skipped in
                  (
                    r' ∷ rs,
                    one_round
                        ∙ ap (λ j. loop (drop j rest) (c + j)) same
                        ∙ ap (λ l. loop l c') (drop-drop (r.offset + length r.packet) c stream)
                        ∙ e
                        ∙ ap some (append_assoc out (r' ∷ []) rs),
                    next r refl good one slice run,
                  )
            ]
      ]
    ]

-- The recovery of all packets ends on every stream, since each round takes a byte. It gives a run of
-- packets from the start of the stream, and reports whether there are any.
pub recover_all_packets-Run :
    (registry : SchemaRegistry) (stream : List ℕ)
    → (rs : List PacketSyncResult) × (recover_all_packets stream registry
        ≡ some (not (length rs == 0), rs))
      × Run registry stream 0 rs
unfolding recover_all_packets Ends
recover_all_packets-Run registry stream =
    let (rs, e, run) =
      recover_loop-Ends registry stream (length stream + 1) 0 [] (omega arith) (omega arith) in
    (rs, ground (arith, e), run)
