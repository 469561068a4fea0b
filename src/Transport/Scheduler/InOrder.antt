-- ===== src/Transport/Scheduler/InOrder.antt =====
-- The scheduler sends the packets in their order and keeps those that were not sent.
use keydrop.Base.{ℕ, ◌+◌, ◌≡◌, ◌⊎◌}
use keydrop.Base.{Bool, true, false, List, [], ◌∷◌, ◌++◌, length}
use keydrop.Transport.Scheduler.{SchedulerStatusCode, SchedulerResult}

module _ {T : Type 0} (transport_send : T → List ℕ → (Bool × ℕ) × T) where
  -- From a state of the transport, the packets are sent one after the other, each with success, up
  -- to another state, with so many bytes in all.
  pub data Sends : T → List (List ℕ) → T → ℕ → Type 0 where
    none_left : {t : T} → Sends t [] t 0
    one_more :
        {t t' t'' : T} {packet : List ℕ} {rest : List (List ℕ)} {n m total : ℕ}
        → transport_send t packet ≡ ((true, n), t')
        → Sends t' rest t'' m
        → total ≡ n + m
        → Sends t (packet ∷ rest) t'' total

  -- What a flush did with the packets that waited: the first ones were sent in their order, and the
  -- others, of which the first was refused, still wait. The counts go on from those before.
  pub record Flushed (queue : List (List ℕ)) (t : T) (before result : SchedulerResult)
      (left : List (List ℕ)) (t' : T) : Type 0 where
    pub front : List (List ℕ)
    pub total : ℕ
    pub between : T
    pub splits : queue ≡ front ++ left
    pub sent : Sends t front between total
    pub counted : result.packets_sent ≡ before.packets_sent + length front
    pub summed : result.bytes_sent ≡ before.bytes_sent + total
    pub stopped :
        ((result.code ≡ SchedulerStatusCode.ok)
          × (left ≡ [])
          × (between ≡ t')
          × (result.packets_failed ≡ 0))
        ⊎ ((result.code ≡ SchedulerStatusCode.send_failed)
            × (packet : List ℕ) × (rest : List (List ℕ)) × (n : ℕ) × (left ≡ packet ∷ rest)
            × (transport_send between packet ≡ ((false, n), t'))
            × (result.packets_failed ≡ length left))

  abbrev counted_up : SchedulerResult → ℕ → SchedulerResult
  counted_up r n = record r { packets_sent = r.packets_sent + 1; bytes_sent = r.bytes_sent + n }

  abbrev Flushes :
      List (List ℕ) → T → SchedulerResult → SchedulerResult × List (List ℕ) × T → Type 0
  Flushes queue t before (result, left, t') = Flushed queue t before result left t'
