-- ===== src/Schema/PayloadPool/Bounded.antt =====
-- The payloads of a pool are empty and have room, and there are not too many.
use keydrop.Base.{
  ℕ, zero, suc, ◌≤◌, ◌≡◌, refl, arith, max, List, [], ◌∷◌, length, All, leb, inl, inr, Bool-cases,
  Text,
}
use keydrop.Schema.Values.{FieldValue}
use keydrop.Schema.PayloadPool.{
  PayloadPoolConfig, PayloadPool, Container, roomy, target_capacity, put_back, Ordered, Named,
  stock, configure, acquire_ordered, acquire_named, release_ordered, release_named, reset,
}

-- Empty, with the room.
abbrev pub Clean : {A : Type 0} → ℕ → Container A → Type 0
Clean room p = (p.held ≡ []) × (room ≤ p.room)

pub record Bounded (pool : PayloadPool) : Type 0 where
  pub ordered_clean : All (Clean pool.config_.default_field_capacity) pool.ordered_available_
  pub named_clean : All (Clean pool.config_.default_field_capacity) pool.named_available_
  pub ordered_few :
      length pool.ordered_available_
      ≤ max pool.config_.max_available pool.config_.initial_ordered_payloads
  pub named_few :
      length pool.named_available_
      ≤ max pool.config_.max_available pool.config_.initial_named_payloads

stock-Clean : (A : Type 0) (n room : ℕ) → All (Clean room) (stock {A = A} n room)
unfolding stock
stock-Clean A zero room = tt
stock-Clean A (suc n) room = ((refl, omega arith), stock-Clean A n room)

length-stock : (A : Type 0) (n room : ℕ) → length (stock {A = A} n room) ≡ n
unfolding stock
length-stock A zero room = refl
length-stock A (suc n) room = omega (arith, length-stock A n room)

configure-Bounded :
    (pool : PayloadPool) (config : PayloadPoolConfig) → Bounded (configure pool config)
unfolding configure
configure-Bounded pool config = record {
  ordered_clean = stock-Clean _ _ _;
  named_clean = stock-Clean _ _ _;
  ordered_few = omega (
    arith,
    length-stock FieldValue config.initial_ordered_payloads config.default_field_capacity,
  );
  named_few = omega (
    arith,
    length-stock (Text × FieldValue) config.initial_named_payloads config.default_field_capacity,
  );
}

acquired-Clean :
    {A : Type 0} (pool : PayloadPool) (room capacity : ℕ)
    → Clean {A = A} capacity (roomy room (target_capacity pool capacity))
      × Clean {A = A} pool.config_.default_field_capacity
          (roomy room (target_capacity pool capacity))
acquired-Clean pool room capacity = ((refl, ground arith), (refl, ground arith))

put_back-Clean :
    {A : Type 0} (pool : PayloadPool) (p : Container A)
    → Clean pool.config_.default_field_capacity (put_back pool p)
put_back-Clean pool p = (ground arith, ground arith)

-- A pool with other ordered payloads.
abbrev ordered_pool : PayloadPool → List Ordered → PayloadPool
ordered_pool pool available = record pool { ordered_available_ = available }

abbrev named_pool : PayloadPool → List Named → PayloadPool
named_pool pool available = record pool { named_available_ = available }

acquire_ordered-Bounded :
    (pool : PayloadPool) (available : List Ordered) (capacity : ℕ)
    → Bounded (ordered_pool pool available)
    → Clean capacity (acquire_ordered (ordered_pool pool available) capacity).0
      × Bounded (acquire_ordered (ordered_pool pool available) capacity).1
unfolding acquire_ordered
acquire_ordered-Bounded pool [] capacity h = (
  (acquired-Clean pool 0 capacity).0,
  record {
    ordered_clean = tt;
    named_clean = h.named_clean;
    ordered_few = omega arith;
    named_few = h.named_few;
  },
)
acquire_ordered-Bounded pool (p ∷ available) capacity h = (
  (acquired-Clean pool p.room capacity).0,
  record {
    ordered_clean = h.ordered_clean.1;
    named_clean = h.named_clean;
    ordered_few = omega (arith, h.ordered_few);
    named_few = h.named_few;
  },
)

acquire_named-Bounded :
    (pool : PayloadPool) (available : List Named) (capacity : ℕ)
    → Bounded (named_pool pool available)
    → Clean capacity (acquire_named (named_pool pool available) capacity).0
      × Bounded (acquire_named (named_pool pool available) capacity).1
unfolding acquire_named
acquire_named-Bounded pool [] capacity h = (
  (acquired-Clean pool 0 capacity).0,
  record {
    ordered_clean = h.ordered_clean;
    named_clean = tt;
    ordered_few = h.ordered_few;
    named_few = omega arith;
  },
)
acquire_named-Bounded pool (p ∷ available) capacity h = (
  (acquired-Clean pool p.room capacity).0,
  record {
    ordered_clean = h.ordered_clean;
    named_clean = h.named_clean.1;
    ordered_few = h.ordered_few;
    named_few = omega (arith, h.named_few);
  },
)

release_ordered-Bounded :
    (pool : PayloadPool) (p : Ordered) → Bounded pool → Bounded (release_ordered pool p)
unfolding release_ordered
release_ordered-Bounded pool p h =
    elim (Bool-cases (leb pool.config_.max_available (length pool.ordered_available_))) [
      | inl full ↦ rw full h
      | inr free ↦ rw free (record {
        ordered_clean = (put_back-Clean pool p, h.ordered_clean);
        named_clean = h.named_clean;
        ordered_few = ground (arith, free);
        named_few = h.named_few;
      })
    ]

release_named-Bounded :
    (pool : PayloadPool) (p : Named) → Bounded pool → Bounded (release_named pool p)
unfolding release_named
release_named-Bounded pool p h =
    elim (Bool-cases (leb pool.config_.max_available (length pool.named_available_))) [
      | inl full ↦ rw full h
      | inr free ↦ rw free (record {
        ordered_clean = h.ordered_clean;
        named_clean = (put_back-Clean pool p, h.named_clean);
        ordered_few = h.ordered_few;
        named_few = ground (arith, free);
      })
    ]

-- From a pool that is so, whatever is configured, taken, given back, whatever it holds, or thrown
-- away: the payloads that wait in the pool are empty, with room for the configured number of fields,
-- and no more of each kind than the greater of the configured limit and the first stock. A payload
-- that is taken is empty, with room for the fields that were asked for.
pub acquire-release-Bounded_payloads :
    (pool : PayloadPool) (config : PayloadPoolConfig) (capacity : ℕ) (p : Ordered) (q : Named)
    → Bounded pool
    → Bounded (configure pool config)
      × Clean capacity (acquire_ordered pool capacity).0
      × Bounded (acquire_ordered pool capacity).1
      × Clean capacity (acquire_named pool capacity).0
      × Bounded (acquire_named pool capacity).1
      × Bounded (release_ordered pool p)
      × Bounded (release_named pool q)
      × Bounded (reset pool)
unfolding reset
acquire-release-Bounded_payloads pool config capacity p q h =
    let (ordered, ordered_left) = acquire_ordered-Bounded pool pool.ordered_available_ capacity h in
    let (named, named_left) = acquire_named-Bounded pool pool.named_available_ capacity h in
    (
      configure-Bounded pool config,
      ordered,
      ordered_left,
      named,
      named_left,
      release_ordered-Bounded pool p h,
      release_named-Bounded pool q h,
      record {
        ordered_clean = tt;
        named_clean = tt;
        ordered_few = omega arith;
        named_few = omega arith;
      },
    )
