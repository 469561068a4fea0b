-- ===== src/Schema/Runtime/Packets/Shortens.antt =====
-- What the sender shortens, the receiver restores.
use keydrop.Base.{
  ℕ, ◌^◌, ◌-◌, ◌≤◌, ◌<◌, ◌≡◌, refl, sym, ap, ◌∙◌, inl, inr, arith, List, [], ◌∷◌, length, All,
  IsByte, drop, true, false, Bool-cases, ◌&&◌, read_u16_le,
}
use keydrop.Core.Buffer
use keydrop.Core.Buffer.{Buffer, empty_buffer}
use keydrop.Core.BufferPool.{BufferPool, BufferPoolConfig, pool_of, acquire, prepared, release}
use keydrop.Schema.Types.{SchemaDef}
use keydrop.Schema.Layout.Fields.{descriptions}
use keydrop.Schema.Optimizer.{
  RuntimeOptimizerConfig, optimize_packet, deoptimize_packet, is_optimized_packet, result,
}
use keydrop.Schema.Optimizer.RoundTrip.{deoptimize-optimize, deoptimize_plain}
use keydrop.Reliability.Keydrop.Conforms.{Conforms}
use keydrop.Schema.Runtime.{done}
use keydrop.Schema.Runtime.Packets.{shorten, restore, filled}
use keydrop.Schema.Runtime.Packets.Optimizes.{optimize_packet-cases}

-- A buffer that is acquired is empty.
acquired_empty :
    (config : BufferPoolConfig) (available : List Buffer) (created : ℕ)
    → (acquire (pool_of config available created)).0.bytes_ ≡ []
unfolding acquire prepared Buffer.clear Buffer.reserve
acquired_empty config [] created = refl
acquired_empty config (b ∷ available) created = ground arith

module _ (schema : SchemaDef) (packet : List ℕ) (config : RuntimeOptimizerConfig) where
  -- The packet that goes out, and what the receiver makes of it.
  pub record Shipped (pool : BufferPool) (theirs : RuntimeOptimizerConfig) (their_pool : BufferPool)
      : Type 0 where
    pub out : List ℕ
    pub after : BufferPool
    pub their_after : BufferPool
    pub enough : 2 ≤ length out
    pub same_id : read_u16_le out 0 ≡ read_u16_le packet 0
    pub sent : shorten schema packet config pool ≡ (done out, after)
    pub restored : restore theirs schema out their_pool ≡ (done packet, their_after)

  shorten-off :
      (pool : BufferPool)
      → (config.enabled && config.enable_zero_value_omission) ≡ false
      → shorten schema packet config pool ≡ (done packet, pool)
  unfolding shorten
  shorten-off pool off = rw (off, shorten) refl

  shorten-plain :
      (pool : BufferPool)
      → (config.enabled && config.enable_zero_value_omission) ≡ true
      → optimize_packet schema packet (acquire pool).0.bytes_ config ≡ (result true false 0, packet)
      → shorten schema packet config pool
        ≡ (done packet, release (acquire pool).1 (filled (acquire pool).0 packet))
  unfolding shorten
  shorten-plain pool on run = rw (on, run, shorten) refl

  shorten-applied :
      (pool : BufferPool) (saved : ℕ) (out : List ℕ)
      → (config.enabled && config.enable_zero_value_omission) ≡ true
      → optimize_packet schema packet (acquire pool).0.bytes_ config ≡ (result true true saved, out)
      → shorten schema packet config pool ≡ (done out, release (acquire pool).1 empty_buffer)
  unfolding shorten
  shorten-applied pool saved out on run = rw (on, run, shorten) refl

  restore-plain :
      (theirs : RuntimeOptimizerConfig) (pool : BufferPool)
      → (theirs.enabled && is_optimized_packet packet) ≡ false
      → restore theirs schema packet pool ≡ (done packet, pool)
  unfolding restore
  restore-plain theirs pool off = rw (off, restore) refl

  restore-applied :
      (theirs : RuntimeOptimizerConfig) (pool : BufferPool) (saved : ℕ) (out : List ℕ)
      → (theirs.enabled && is_optimized_packet out) ≡ true
      → deoptimize_packet schema out (acquire pool).0.bytes_ ≡ (result true true saved, packet)
      → restore theirs schema out pool
        ≡ (done packet, release (acquire pool).1 (filled (acquire pool).0 packet))
  unfolding restore
  restore-applied theirs pool saved out on run = rw (on, run, restore) refl

  -- Restoring is about the packet only where it was optimized.
  applied-marked :
      (out output : List ℕ) (saved : ℕ)
      → deoptimize_packet schema out output ≡ (result true true saved, packet)
      → is_optimized_packet out ≡ true
  applied-marked out output saved run = elim (Bool-cases (is_optimized_packet out)) [
    | inl marked ↦ marked
    | inr plain ↦
        let other =
          ap (λ x. x.0.applied) (sym run ∙ (deoptimize_plain schema out output).0 plain) in
        absurd (cc other)
  ]

  pub ship :
      (pool their_pool : BufferPool) (theirs : RuntimeOptimizerConfig)
      → All IsByte packet
      → 2 ≤ length packet
      → length packet < 2 ^ 63
      → length schema.fields ≤ 2040
      → Conforms (descriptions [] schema.fields) (drop 2 packet)
      → theirs.enabled ≡ config.enabled
      → (config.enabled ≡ true → is_optimized_packet packet ≡ false)
      → Shipped pool theirs their_pool
  ship pool their_pool theirs bytes two small few conforms same plain =
      let unmarked : (theirs.enabled && is_optimized_packet packet) ≡ false =
        elim (Bool-cases config.enabled) [
          | inl on ↦ ground (arith, plain on)
          | inr off ↦ ground (arith, same, off)
        ] in
      let kept = restore-plain theirs their_pool unmarked in
      elim (Bool-cases (config.enabled && config.enable_zero_value_omission)) [
        | inr off ↦ record {
          out = packet;
          enough = two;
          same_id = refl;
          after = pool;
          their_after = their_pool;
          sent = shorten-off pool off;
          restored = kept;
        }
        | inl on ↦
            let enabled : config.enabled ≡ true = ground (arith, on) in
            let zeros : config.enable_zero_value_omission ≡ true = ground (arith, on) in
            elim (optimize_packet-cases schema packet (acquire pool).0.bytes_ config bytes two few
              enabled zeros conforms) [
                | inl run ↦ record {
                  out = packet;
                  enough = two;
                  same_id = refl;
                  after = release (acquire pool).1 (filled (acquire pool).0 packet);
                  their_after = their_pool;
                  sent = shorten-plain pool on run;
                  restored = kept;
                }
                | inr (saved, out, run, enough, same_id) ↦
                    let empty = acquired_empty pool.config_ pool.available_ pool.total_created_ in
                    let their_empty =
                      acquired_empty their_pool.config_ their_pool.available_
                        their_pool.total_created_ in
                    let run' : deoptimize_packet schema out (acquire their_pool).0.bytes_
                        ≡ (result true true (2 ^ 64 - saved), packet) =
                      ap (deoptimize_packet schema out) (their_empty ∙ sym empty)
                      ∙ (deoptimize-optimize schema packet (acquire pool).0.bytes_ out config saved
                          small run).2 in
                    let marked = applied-marked out _ (2 ^ 64 - saved) run' in
                    record {
                      out = out;
                      enough = enough;
                      same_id = same_id;
                      after = release (acquire pool).1 empty_buffer;
                      their_after =
                          release (acquire their_pool).1 (filled (acquire their_pool).0 packet);
                      sent = shorten-applied pool saved out on run;
                      restored =
                          restore-applied theirs their_pool (2 ^ 64 - saved) out
                            (ground (arith, same, enabled, marked)) run';
                    }
              ]
      ]
