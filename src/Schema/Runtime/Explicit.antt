-- ===== src/Schema/Runtime/Explicit.antt =====
-- What the adaptive profiler may change of a runtime.
use keydrop.Base.{
  ◌==◌, ◌≡◌, ◌≢◌, refl, sym, ap, ◌∙◌, inl, inr, arith, Bool, true, false, not, Bool-cases,
}
use keydrop.Base.{Text, if◌then◌else◌}
use mathlib.Core.Path.{subst}
use keydrop.Schema.Values.{NamedPayload}
use keydrop.Schema.Dictionary.{AdaptiveDictionary, AdaptiveDictionaryConfig}
use keydrop.Schema.Dictionary.Shrinks.{Held, allowed, configure-Held}
use keydrop.Schema.Profiler.{Ratios, observe, decide}
use keydrop.Schema.Stream.Changes.{Floats}
use keydrop.Schema.Stream.Sender
use keydrop.Schema.Stream.Sender.{StreamOptimizer, StreamOptimizerConfig}
use keydrop.Schema.Runtime.State.{
  SchemaRuntime, configured, apply_optimization_settings, apply_decisions, profiled,
}

-- The switches that the profiler has: the rest of the settings stays.
pub record Switched (rt rt' : SchemaRuntime) : Type 0 where
  pub dictionary_on : Bool
  pub delta_on : Bool
  pub held : Held rt'.dictionary_
  -- All but the dictionary, the stream optimizer and the profiler.
  pub others :
      record rt' {
        dictionary_ = rt.dictionary_;
        stream_optimizer_ = rt.stream_optimizer_;
        adaptive_profiler_ = rt.adaptive_profiler_;
      }
      ≡ rt
  pub dictionary_config :
      rt'.dictionary_.config ≡ record (rt.dictionary_.config) { enabled = dictionary_on }
  pub stream_config :
      rt'.stream_optimizer_.config
      ≡ record (rt.stream_optimizer_.config) { enable_delta_packets = delta_on }
  pub dictionary_kept :
      rt.dictionary_explicit_ ≡ true → dictionary_on ≡ rt.dictionary_.config.enabled
  pub delta_kept :
      rt.stream_explicit_ ≡ true → delta_on ≡ rt.stream_optimizer_.config.enable_delta_packets

configured-config :
    (d : AdaptiveDictionary) (c : AdaptiveDictionaryConfig)
    → Held d
    → c.max_entries ≢ 0
    → ((configured d c).config ≡ c) × Held (configured d c)
unfolding configured
configured-config d c held some_room =
    let (after, run, few, still, same) = configure-Held d c held in
    let whole : allowed c ≡ c =
      let e : (if c.max_entries == 0 then 1 else c.max_entries) ≡ c.max_entries =
        ground (arith, some_room) in
      ap (λ n. record c { max_entries = n }) e in
    rw (run, configured) (same ∙ whole, still)

-- A stream optimizer with positive limits takes a configuration with these limits as it is.
stream-config :
    (o : StreamOptimizer) (c : StreamOptimizerConfig)
    → c.max_batch_packets ≢ 0
    → c.keyframe_interval ≢ 0
    → (Sender.configure o c).config ≡ c
unfolding Sender.configure
stream-config o c batch interval =
    let e : (if c.max_batch_packets == 0 then 1 else c.max_batch_packets) ≡ c.max_batch_packets =
      ground (arith, batch) in
    let f : (if c.keyframe_interval == 0 then 1 else c.keyframe_interval) ≡ c.keyframe_interval =
      ground (arith, interval) in
    ap
      (λ n. record c {
        max_batch_packets = n;
        keyframe_interval = if c.keyframe_interval == 0 then 1 else c.keyframe_interval;
      })
      e
    ∙ ap (λ n. record c { keyframe_interval = n }) f

dictionary-switch :
    (c : AdaptiveDictionaryConfig) (b x : Bool)
    → (if b then record c { enabled = x } else c)
      ≡ record c { enabled = if b then x else c.enabled }
dictionary-switch c true x = refl
dictionary-switch c false x = refl

stream-switch :
    (c : StreamOptimizerConfig) (b x : Bool)
    → (if b then record c { enable_delta_packets = x } else c)
      ≡ record c { enable_delta_packets = if b then x else c.enable_delta_packets }
stream-switch c true x = refl
stream-switch c false x = refl

reset-config :
    (o : StreamOptimizer) (b : Bool)
    → (if b then Sender.reset_delta_state o else o).config ≡ o.config
unfolding Sender.reset_delta_state
reset-config o true = refl
reset-config o false = refl

module _ (rt : SchemaRuntime) (held : Held rt.dictionary_)
    (some_room : rt.dictionary_.config.max_entries ≢ 0)
    (batch : rt.stream_optimizer_.config.max_batch_packets ≢ 0)
    (interval : rt.stream_optimizer_.config.keyframe_interval ≢ 0) where
  apply_decisions-Switched : Switched rt (apply_decisions rt)
  unfolding apply_decisions apply_optimization_settings
  apply_decisions-Switched =
      let p = rt.adaptive_profiler_ in
      let dc = rt.dictionary_.config in
      let sc = rt.stream_optimizer_.config in
      let d : Bool = if not rt.dictionary_explicit_ then p.dictionary_enabled_ else dc.enabled in
      let s : Bool =
        if not rt.stream_explicit_ then p.delta_enabled_ else sc.enable_delta_packets in
      let switched = dictionary-switch dc (not rt.dictionary_explicit_) p.dictionary_enabled_ in
      let streamed = stream-switch sc (not rt.stream_explicit_) p.delta_enabled_ in
      let settled = configured-config rt.dictionary_ (record dc { enabled = d }) held some_room in
      record {
        dictionary_on = d;
        delta_on = s;
        held = subst (λ c. Held (configured rt.dictionary_ c)) (sym switched) settled.1;
        others = refl;
        dictionary_config = ap (λ c. (configured rt.dictionary_ c).config) switched ∙ settled.0;
        stream_config =
            reset-config _ _
            ∙ ap (λ c. (Sender.configure rt.stream_optimizer_ c).config) streamed
            ∙ stream-config rt.stream_optimizer_ (record sc { enable_delta_packets = s }) batch
                interval;
        dictionary_kept = λ e. ground (arith, e);
        delta_kept = λ e. ground (arith, e);
      }

  kept-Switched : Switched rt rt
  kept-Switched = record {
    dictionary_on = rt.dictionary_.config.enabled;
    delta_on = rt.stream_optimizer_.config.enable_delta_packets;
    held = held;
    others = refl;
    dictionary_config = refl;
    stream_config = refl;
    dictionary_kept = λ e. refl;
    delta_kept = λ e. refl;
  }

-- Whatever the profiler has observed, what `send` lets it do behind a packet leaves all of the
-- runtime but its own state, the dictionary and the stream optimizer: the registry, the optimizer's
-- settings, the pools, the reliability settings, the cache, and what was configured explicitly. Of
-- the settings of the dictionary and of the stream optimizer it leaves all but the switches of the
-- dictionary and of the delta packets; and the switch of a component that was configured explicitly
-- stays too. The dictionary still holds as many ids as values, in order. Before, it does so, and its
-- limit and those of the stream optimizer are not 0.
pub profiled-Switched :
    (floats : Floats) (at_least : Ratios) (rt : SchemaRuntime) (name : Text)
    (payload : NamedPayload)
    → Held rt.dictionary_
    → rt.dictionary_.config.max_entries ≢ 0
    → rt.stream_optimizer_.config.max_batch_packets ≢ 0
    → rt.stream_optimizer_.config.keyframe_interval ≢ 0
    → Switched rt (profiled floats at_least rt name payload)
unfolding profiled
profiled-Switched floats at_least rt name payload held some_room batch interval =
    let decided = decide at_least (observe floats rt.adaptive_profiler_ name payload) in
    let after : SchemaRuntime = record rt { adaptive_profiler_ = decided.1 } in
    let same : Switched after (profiled floats at_least rt name payload) =
      elim (Bool-cases decided.0) [
        | inl applies ↦
            rw (applies, profiled) (apply_decisions-Switched after held some_room batch interval)
        | inr leaves ↦ rw (leaves, profiled) (kept-Switched after held some_room batch interval)
      ] in
    let back : SchemaRuntime → SchemaRuntime =
      λ r. record r { adaptive_profiler_ = rt.adaptive_profiler_ } in
    record {
      dictionary_on = same.dictionary_on;
      delta_on = same.delta_on;
      held = same.held;
      others = ap back same.others;
      dictionary_config = same.dictionary_config;
      stream_config = same.stream_config;
      dictionary_kept = same.dictionary_kept;
      delta_kept = same.delta_kept;
    }
