-- ===== src/Schema/PayloadPool.antt =====
-- src/schema/payload_pool.cpp: payloads that are used again. The last of each vector stands first. A
-- vector and an unordered map grow to what is needed at least, and the model takes the least.
pub mod Bounded
use keydrop.Base.{ℕ, zero, suc, ◌+◌, max, List, [], ◌∷◌, Option, none, some, length, leb, ltb}
use keydrop.Base.{if◌then◌else◌, Text}
use keydrop.Core.BufferPool.{with_pool}
use keydrop.Schema.Values.{FieldValue}

pub record PayloadPoolConfig : Type 0 where
  pub initial_ordered_payloads : ℕ
  pub initial_named_payloads : ℕ
  pub default_field_capacity : ℕ
  pub max_available : ℕ

-- A container: what it holds, and its capacity or bucket count.
pub record Container (A : Type 0) : Type 0 where
  pub held : List A
  pub room : ℕ

abbrev pub Ordered : Type 0
Ordered = Container FieldValue

abbrev pub Named : Type 0
Named = Container (Text × FieldValue)

pub record PayloadPool : Type 0 where
  pub config_ : PayloadPoolConfig
  pub ordered_available_ : List Ordered
  pub named_available_ : List Named
  pub total_ordered_created_ : ℕ
  pub total_named_created_ : ℕ

-- An empty container with the room of another one, and `n` at least.
abbrev pub roomy : {A : Type 0} → ℕ → ℕ → Container A
roomy room n = record { held = []; room = max room n }

-- `n` containers that are reserved.
unfoldable pub stock : {A : Type 0} → ℕ → ℕ → List (Container A)
stock zero capacity = []
stock (suc n) capacity = roomy 0 capacity ∷ stock n capacity

unfoldable pub configure : PayloadPool → PayloadPoolConfig → PayloadPool
unfolding stock
configure pool config = record {
  config_ = config;
  ordered_available_ = stock config.initial_ordered_payloads config.default_field_capacity;
  named_available_ = stock config.initial_named_payloads config.default_field_capacity;
  total_ordered_created_ = config.initial_ordered_payloads;
  total_named_created_ = config.initial_named_payloads;
}

abbrev pub target_capacity : PayloadPool → ℕ → ℕ
target_capacity pool capacity =
    if ltb pool.config_.default_field_capacity capacity
    then capacity
    else pool.config_.default_field_capacity

unfoldable pub acquire_ordered : PayloadPool → ℕ → Ordered × PayloadPool
acquire_ordered pool capacity = elim pool.ordered_available_ [
  | payload ∷ rest ↦ (
    roomy payload.room (target_capacity pool capacity),
    record pool { ordered_available_ = rest },
  )
  | [] ↦ (
    roomy 0 (target_capacity pool capacity),
    record pool { total_ordered_created_ = pool.total_ordered_created_ + 1 },
  )
]

unfoldable pub acquire_named : PayloadPool → ℕ → Named × PayloadPool
acquire_named pool capacity = elim pool.named_available_ [
  | payload ∷ rest ↦
      (roomy payload.room (target_capacity pool capacity), record pool { named_available_ = rest })
  | [] ↦ (
    roomy 0 (target_capacity pool capacity),
    record pool { total_named_created_ = pool.total_named_created_ + 1 },
  )
]

-- What is put back: it is cleared, and has the room that the pool promises.
abbrev pub put_back : {A : Type 0} → PayloadPool → Container A → Container A
put_back pool payload =
    if ltb payload.room pool.config_.default_field_capacity
    then roomy payload.room pool.config_.default_field_capacity
    else record { held = []; room = payload.room }

unfoldable pub release_ordered : PayloadPool → Ordered → PayloadPool
release_ordered pool payload =
    if leb pool.config_.max_available (length pool.ordered_available_)
    then pool
    else record pool { ordered_available_ = put_back pool payload ∷ pool.ordered_available_ }

unfoldable pub release_named : PayloadPool → Named → PayloadPool
release_named pool payload =
    if leb pool.config_.max_available (length pool.named_available_)
    then pool
    else record pool { named_available_ = put_back pool payload ∷ pool.named_available_ }

unfoldable pub reset : PayloadPool → PayloadPool
reset pool = record pool {
  ordered_available_ = [];
  named_available_ = [];
  total_ordered_created_ = 0;
  total_named_created_ = 0;
}

-- A lease holds a pool, by a number that tells pools apart, or none once it was moved from.
pub record PayloadLease (A : Type 0) : Type 0 where
  pub pool_ : Option ℕ
  pub payload_ : Container A

abbrev pub OrderedPayloadLease : Type 0
OrderedPayloadLease = PayloadLease FieldValue

abbrev pub NamedPayloadLease : Type 0
NamedPayloadLease = PayloadLease (Text × FieldValue)

-- The pools that leases point to.
abbrev pub Pools : Type 0
Pools = ℕ → PayloadPool

unfoldable pub lease_ordered : Pools → ℕ → ℕ → OrderedPayloadLease × Pools
unfolding acquire_ordered
lease_ordered pools id capacity =
    let (payload, pool) = acquire_ordered (pools id) capacity in
    (record { pool_ = some id; payload_ = payload }, with_pool pools id pool)

unfoldable pub lease_named : Pools → ℕ → ℕ → NamedPayloadLease × Pools
unfolding acquire_named
lease_named pools id capacity =
    let (payload, pool) = acquire_named (pools id) capacity in
    (record { pool_ = some id; payload_ = payload }, with_pool pools id pool)

-- The destructors.
unfoldable pub end_ordered : Pools → OrderedPayloadLease → Pools
end_ordered pools l = elim l.pool_ [
  | none ↦ pools
  | some id ↦ with_pool pools id (release_ordered (pools id) l.payload_)
]

unfoldable pub end_named : Pools → NamedPayloadLease → Pools
end_named pools l = elim l.pool_ [
  | none ↦ pools
  | some id ↦ with_pool pools id (release_named (pools id) l.payload_)
]

-- The move constructors: the new lease, and what is left in the old one.
unfoldable pub move_payload : {A : Type 0} → PayloadLease A → PayloadLease A × PayloadLease A
move_payload other = (other, record { pool_ = none; payload_ = record { held = []; room = 0 } })

-- The move assignments from another lease: the two leases, and the pools.
unfoldable pub assign_ordered :
    Pools
    → OrderedPayloadLease
    → OrderedPayloadLease
    → OrderedPayloadLease × OrderedPayloadLease × Pools
unfolding end_ordered move_payload
assign_ordered pools l other =
    let (moved, left) = move_payload other in (moved, left, end_ordered pools l)

unfoldable pub assign_named :
    Pools → NamedPayloadLease → NamedPayloadLease → NamedPayloadLease × NamedPayloadLease × Pools
unfolding end_named move_payload
assign_named pools l other =
    let (moved, left) = move_payload other in (moved, left, end_named pools l)
