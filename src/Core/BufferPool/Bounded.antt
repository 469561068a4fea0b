-- ===== src/Core/BufferPool/Bounded.antt =====
-- The buffers of a pool are empty, and there are not too many; one that is taken has room.
use keydrop.Base.{
  ℕ, zero, suc, ◌+◌, ◌≤◌, ◌<◌, ◌≡◌, refl, arith, max, List, [], ◌∷◌, length, All, leb, inl, inr,
  Bool-cases,
}
use keydrop.Core.Buffer
use keydrop.Core.Buffer.{Buffer, empty_buffer}
use keydrop.Core.BufferPool.{
  BufferPoolConfig, BufferPool, pool_of, prepared, fill, configure, acquire, release, reset,
}

-- Empty, with room for the bytes that the pool promises.
abbrev pub Clean : BufferPoolConfig → Buffer → Type 0
Clean config b = (b.bytes_ ≡ []) × (config.default_capacity ≤ b.capacity_)

pub record Bounded (pool : BufferPool) : Type 0 where
  pub blank : All (λ (b : Buffer). b.bytes_ ≡ []) pool.available_
  pub few : length pool.available_ ≤ max pool.config_.max_available pool.config_.initial_buffers

fresh-Clean :
    (config : BufferPoolConfig) → Clean config (Buffer.reserve empty_buffer config.default_capacity)
unfolding Buffer.reserve
fresh-Clean config = (refl, omega arith)

prepared-Clean :
    (config : BufferPoolConfig) (b : Buffer) → Clean config (prepared config (Buffer.clear b))
unfolding prepared Buffer.clear Buffer.reserve
prepared-Clean config b = (ground arith, ground arith)

fill-Bounded :
    (n : ℕ) (pool : BufferPool)
    → All (λ (b : Buffer). b.bytes_ ≡ []) pool.available_
    → length pool.available_ + n ≤ max pool.config_.max_available pool.config_.initial_buffers
    → Bounded (fill n pool)
unfolding fill Buffer.reserve
fill-Bounded zero pool blank few = record { blank = blank; few = omega (arith, few) }
fill-Bounded (suc n) pool blank few = fill-Bounded n _ (refl, blank) (omega (arith, few))

acquire-Bounded :
    (config : BufferPoolConfig) (available : List Buffer) (created : ℕ)
    → Bounded (pool_of config available created)
    → Clean config (acquire (pool_of config available created)).0
      × Bounded (acquire (pool_of config available created)).1
unfolding acquire
acquire-Bounded config [] created h = (fresh-Clean config, record { blank = tt; few = omega arith })
acquire-Bounded config (b ∷ available) created h =
    (prepared-Clean config b, record { blank = h.blank.1; few = omega (arith, h.few) })

release-Bounded :
    (pool : BufferPool) (buffer : Buffer) → Bounded pool → Bounded (release pool buffer)
unfolding release
release-Bounded pool buffer h =
    elim (Bool-cases (leb pool.config_.max_available (length pool.available_))) [
      | inl full ↦ rw full h
      | inr free ↦ rw free (record {
        blank = ((prepared-Clean pool.config_ buffer).0, h.blank);
        few = ground (arith, free);
      })
    ]

-- From a pool that is so, whatever is configured, taken, given back, whatever it holds, or thrown
-- away: the buffers that wait in the pool are empty, and no more of them than the greater of the
-- configured limit and the first stock. A buffer that is taken is empty and has at least the
-- configured capacity; so is one that was given back, which waits in front where there is place.
pub acquire-release-Bounded :
    (pool : BufferPool) (config : BufferPoolConfig) (buffer : Buffer)
    → Bounded pool
    → Bounded (configure pool config)
      × Clean pool.config_ (acquire pool).0
      × Bounded (acquire pool).1
      × Bounded (release pool buffer)
      × (length pool.available_ < pool.config_.max_available
          → (kept : Buffer) × Clean pool.config_ kept
            × ((release pool buffer).available_ ≡ kept ∷ pool.available_))
      × Bounded (reset pool)
unfolding configure release reset
acquire-release-Bounded pool config buffer h =
    let (clean, still) = acquire-Bounded pool.config_ pool.available_ pool.total_created_ h in
    (
      fill-Bounded config.initial_buffers _ tt (omega arith),
      clean,
      still,
      release-Bounded pool buffer h,
      λ free. (
        prepared pool.config_ (Buffer.clear buffer),
        prepared-Clean pool.config_ buffer,
        ground arith,
      ),
      record { blank = tt; few = omega arith },
    )
