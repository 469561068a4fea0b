-- ===== src/Core/BufferPool.antt =====
-- src/core/buffer_pool.cpp: buffers that are used again. The last of `available_` stands first.
pub mod Bounded
use keydrop.Base.{ℕ, zero, suc, ◌+◌, ◌==◌, List, [], ◌∷◌, Option, none, some, length, leb, ltb}
use keydrop.Base.{if◌then◌else◌}
use keydrop.Core.Buffer
use keydrop.Core.Buffer.{Buffer, empty_buffer}

pub record BufferPoolConfig : Type 0 where
  pub initial_buffers : ℕ
  pub default_capacity : ℕ
  pub max_available : ℕ

pub record BufferPool : Type 0 where
  pub config_ : BufferPoolConfig
  pub available_ : List Buffer
  pub total_created_ : ℕ

-- A pool from its parts.
abbrev pub pool_of : BufferPoolConfig → List Buffer → ℕ → BufferPool
pool_of config available created = record {
  config_ = config;
  available_ = available;
  total_created_ = created;
}

-- A buffer with the room that the pool promises.
unfoldable pub prepared : BufferPoolConfig → Buffer → Buffer
prepared config buffer =
    if ltb buffer.capacity_ config.default_capacity
    then Buffer.reserve buffer config.default_capacity
    else buffer

-- A copy of a buffer: its vector holds the bytes, and has no more room than they need.
abbrev pub copied : Buffer → Buffer
copied buffer = record { bytes_ = buffer.bytes_; capacity_ = length buffer.bytes_ }

-- The loop of `configure`, with `n` rounds left. The buffer that is reserved is copied.
unfoldable pub fill : ℕ → BufferPool → BufferPool
fill zero pool = pool
fill (suc n) pool = fill n (record pool {
  available_ = copied (Buffer.reserve empty_buffer pool.config_.default_capacity) ∷ pool.available_;
  total_created_ = pool.total_created_ + 1;
})

unfoldable pub configure : BufferPool → BufferPoolConfig → BufferPool
unfolding fill
configure pool config =
    fill config.initial_buffers (record { config_ = config; available_ = []; total_created_ = 0 })

unfoldable pub acquire : BufferPool → Buffer × BufferPool
unfolding prepared
acquire pool = elim pool.available_ [
  | buffer ∷ rest ↦ (prepared pool.config_ (Buffer.clear buffer), record pool { available_ = rest })
  | [] ↦ (
    Buffer.reserve empty_buffer pool.config_.default_capacity,
    record pool { total_created_ = pool.total_created_ + 1 },
  )
]

unfoldable pub release : BufferPool → Buffer → BufferPool
unfolding prepared
release pool buffer =
    if leb pool.config_.max_available (length pool.available_)
    then pool
    else record pool { available_ = prepared pool.config_ (Buffer.clear buffer) ∷ pool.available_ }

unfoldable pub reset : BufferPool → BufferPool
reset pool = record pool { available_ = []; total_created_ = 0 }

-- A lease holds a pool, by a number that tells pools apart, or none once it was moved from.
pub record BufferLease : Type 0 where
  pub pool_ : Option ℕ
  pub buffer_ : Buffer

-- The pools that leases point to, with one of them replaced.
abbrev pub with_pool : {P : Type 0} → (ℕ → P) → ℕ → P → ℕ → P
with_pool pools id pool i = if i == id then pool else pools i

abbrev pub Pools : Type 0
Pools = ℕ → BufferPool

unfoldable pub lease : Pools → ℕ → BufferLease × Pools
unfolding acquire
lease pools id =
    let (buffer, pool) = acquire (pools id) in
    (record { pool_ = some id; buffer_ = buffer }, with_pool pools id pool)

-- The destructor.
unfoldable pub end_lease : Pools → BufferLease → Pools
end_lease pools l = elim l.pool_ [
  | none ↦ pools
  | some id ↦ with_pool pools id (release (pools id) l.buffer_)
]

-- The move constructor: the new lease, and what is left in the old one.
unfoldable pub move_lease : BufferLease → BufferLease × BufferLease
move_lease other = (
  record { pool_ = other.pool_; buffer_ = other.buffer_ },
  record { pool_ = none; buffer_ = empty_buffer },
)

-- The move assignment from another lease: the two leases, and the pools.
unfoldable pub assign_lease : Pools → BufferLease → BufferLease → BufferLease × BufferLease × Pools
unfolding end_lease move_lease
assign_lease pools l other =
    let (moved, left) = move_lease other in (moved, left, end_lease pools l)
