-- ===== src/Schema/Runtime/Streams/Limit.antt =====
-- How many packets of a damaged stream are decoded.
use keydrop.Base.{ℕ, ◌+◌, ◌≡◌, inl, inr, arith, List, [], ◌∷◌, ◌++◌, length, take}
use keydrop.Base.{Bool, min, length-take, length-append, some, true, false}
use mathlib.Core.Path.{subst}
use keydrop.Core.Endian.{Host}
use keydrop.Reliability.Synchronizer.{PacketSyncResult, recover_all_packets}
use keydrop.Schema.Runtime.{Outcome, Outcome-cases, done, failed}
use keydrop.Schema.Runtime.State.{SchemaRuntime}
use keydrop.Schema.Runtime.Streams.{
  Messages, receive_leased, receive_recovered, receive_recovered_stream,
}

-- As many messages, if there are any.
abbrev Counts : ℕ → Outcome (Messages × ℕ) → Type 0
Counts n (done (messages, skipped)) = length messages ≡ n
Counts n (failed code) = Unit {0}

module _ (host : Host) where
  receive_recovered-Counts :
      (packets : List PacketSyncResult) (rt : SchemaRuntime) (out : Messages) (skipped : ℕ)
      → Counts (length out + length packets) (receive_recovered host rt packets out skipped).0
  unfolding receive_recovered
  receive_recovered-Counts [] rt out skipped = omega arith
  receive_recovered-Counts (p ∷ packets) rt out skipped =
      let run = receive_leased host rt p.packet in
      elim (Outcome-cases run.0) [
        | inl (c, e) ↦ rw (e, receive_recovered) tt
        | inr (message, e) ↦
            let rest =
              receive_recovered-Counts packets run.1 (out ++ (message ∷ []))
                (skipped + p.skipped_bytes) in
            let size : length (out ++ (message ∷ [])) + length packets
                ≡ length out + length (p ∷ packets) =
              omega (arith, length-append out (message ∷ [])) in
            rw (e, receive_recovered)
              (subst
                (λ n.
                  Counts n
                    (receive_recovered host run.1 packets (out ++ (message ∷ []))
                      (skipped + p.skipped_bytes)).0)
                size rest)
      ]

  stream-Counts :
      (rt : SchemaRuntime) (stream : List ℕ) (found : Bool) (packets : List PacketSyncResult)
      → recover_all_packets stream rt.registry_ ≡ some (found, packets)
      → Counts
          (min rt.reliability_config_.max_recovered_packets (length packets))
          (receive_recovered_stream host rt stream).0
  unfolding receive_recovered_stream
  stream-Counts rt stream false packets e = rw (e, receive_recovered_stream) tt
  stream-Counts rt stream true packets e =
      let limit = rt.reliability_config_.max_recovered_packets in
      rw (e, receive_recovered_stream)
        (subst (λ n. Counts n (receive_recovered host rt (take limit packets) [] 0).0)
          (omega (arith, length-take limit packets))
          (receive_recovered-Counts (take limit packets) rt [] 0))

  -- No more messages come out of a damaged stream than the configured limit, nor than packets were
  -- recovered: as many as the smaller one, where no packet is refused.
  pub receive_recovered_stream-take :
      (rt : SchemaRuntime) (stream : List ℕ) (found : Bool) (packets : List PacketSyncResult)
      (messages : Messages) (skipped : ℕ)
      → recover_all_packets stream rt.registry_ ≡ some (found, packets)
      → (receive_recovered_stream host rt stream).0 ≡ done (messages, skipped)
      → length messages ≡ min rt.reliability_config_.max_recovered_packets (length packets)
  receive_recovered_stream-take rt stream found packets messages skipped recovered received =
      subst (Counts (min rt.reliability_config_.max_recovered_packets (length packets))) received
        (stream-Counts rt stream found packets recovered)
