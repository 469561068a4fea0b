-- ===== src/Examples/Pools.antt =====
-- Runs of the pools and of the scheduler, and each result applied to one.
use keydrop.Base.{◌<◌}
use keydrop.Base.{ℕ, ◌+◌, ◌≡◌, refl, arith, Bool, ltb}
use keydrop.Base.{List, [], ◌∷◌, length, codes, text_key, number_key}
use keydrop.Core.Buffer.{Buffer}
use keydrop.Core.BufferPool
use keydrop.Core.BufferPool.Bounded as BufferBounded
use keydrop.Core.BufferPool.Bounded.{acquire-release-Bounded}
use keydrop.Schema.Values.{FieldValue}
use keydrop.Schema.PayloadPool
use keydrop.Schema.PayloadPool.Bounded as PayloadBounded
use keydrop.Schema.PayloadPool.Bounded.{acquire-release-Bounded_payloads}
use keydrop.Schema.PayloadPool.{Ordered, Named}
use keydrop.Transport.Scheduler.{TransportScheduler}
use keydrop.Examples.Runtime.{runtime}

-- A transport that takes packets below a length, and counts those it took.
abbrev take_short : ℕ → List ℕ → (Bool × ℕ) × ℕ
take_short taken packet = ((ltb (length packet) 3, length packet), taken + 1)

abbrev waiting : TransportScheduler
waiting = record { queue_ = (1 ∷ []) ∷ (1 ∷ 2 ∷ 3 ∷ []) ∷ []; max_pending_ = 2 }

abbrev used : Buffer
used = record { bytes_ = 1 ∷ 2 ∷ []; capacity_ = 2 }

abbrev one_kept : BufferPool.BufferPool
one_kept = record runtime.buffer_pool_ { available_ = record { bytes_ = []; capacity_ = 16 } ∷ [] }

acquire-release-Bounded_example :
    BufferBounded.Bounded (BufferPool.configure one_kept one_kept.config_)
    × BufferBounded.Clean one_kept.config_ (BufferPool.acquire one_kept).0
    × BufferBounded.Bounded (BufferPool.acquire one_kept).1
    × BufferBounded.Bounded (BufferPool.release one_kept used)
    × (1 < 2
        → (kept : Buffer) × BufferBounded.Clean one_kept.config_ kept
          × ((BufferPool.release one_kept used).available_ ≡ kept ∷ one_kept.available_))
    × BufferBounded.Bounded (BufferPool.reset one_kept)
acquire-release-Bounded_example =
    acquire-release-Bounded one_kept one_kept.config_ used
      (record { blank = (refl, tt); few = omega arith })

abbrev payloads : PayloadPool.PayloadPool
payloads = runtime.payload_pool_

abbrev two_values : Ordered
two_values = record { held = FieldValue.u8 1 ∷ FieldValue.u8 2 ∷ []; room = 2 }

abbrev one_name : Named
one_name = record { held = (codes "count", FieldValue.u8 1) ∷ []; room = 1 }

acquire-release-Bounded_payloads_example :
    PayloadBounded.Bounded (PayloadPool.configure payloads payloads.config_)
    × PayloadBounded.Clean 3 (PayloadPool.acquire_ordered payloads 3).0
    × PayloadBounded.Bounded (PayloadPool.acquire_ordered payloads 3).1
    × PayloadBounded.Clean 3 (PayloadPool.acquire_named payloads 3).0
    × PayloadBounded.Bounded (PayloadPool.acquire_named payloads 3).1
    × PayloadBounded.Bounded (PayloadPool.release_ordered payloads two_values)
    × PayloadBounded.Bounded (PayloadPool.release_named payloads one_name)
    × PayloadBounded.Bounded (PayloadPool.reset payloads)
acquire-release-Bounded_payloads_example =
    acquire-release-Bounded_payloads payloads payloads.config_ 3 two_values one_name (record {
      ordered_clean = tt;
      named_clean = tt;
      ordered_few = omega arith;
      named_few = omega arith;
    })
