-- ===== src/Schema/Runtime/State.antt =====
-- The state of the class `SchemaRuntime` of src/schema/schema_runtime.cpp, and the methods that
-- configure it. A pointer into the registry is what it points to, since a schema that is registered
-- stays as it is.
use keydrop.Base.{ℕ, ◌==◌, not, Bool, true, false, Option, none, some}
use keydrop.Base.{if◌then◌else◌, Text, text_eq}
use keydrop.Core.BufferPool
use keydrop.Core.BufferPool.{BufferPool, BufferPoolConfig}
use keydrop.Schema.Types.{SchemaDef}
use keydrop.Schema.Layout.{PacketLayout}
use keydrop.Schema.Registry
use keydrop.Schema.Registry.{
  SchemaRegistry, SchemaRegistryStatusCode, invalid_schema, find_by_name, find_layout_by_name,
}
use keydrop.Schema.Validator.{is_accepted, validate_schema}
use keydrop.Schema.Values.{NamedPayload}
use keydrop.Schema.Dictionary
use keydrop.Schema.Dictionary.{AdaptiveDictionary, AdaptiveDictionaryConfig}
use keydrop.Schema.Optimizer.{RuntimeOptimizerConfig}
use keydrop.Schema.PayloadPool
use keydrop.Schema.PayloadPool.{PayloadPool, PayloadPoolConfig}
use keydrop.Schema.Profiler
use keydrop.Schema.Profiler.{AdaptiveProfiler, AdaptiveProfilerConfig, Ratios, observe, decide}
use keydrop.Schema.Stream.Changes.{Floats}
use keydrop.Schema.Stream.Sender
use keydrop.Schema.Stream.Sender.{StreamOptimizer, StreamOptimizerConfig}
use keydrop.Schema.Runtime.{Outcome, done, failed, schema_not_found, schema_invalid}

pub record ReliabilityConfig : Type 0 where
  pub enable_crc32 : Bool
  pub max_recovered_packets : ℕ

pub record SchemaRuntime : Type 0 where
  pub registry_ : SchemaRegistry
  pub optimizer_config_ : RuntimeOptimizerConfig
  pub dictionary_ : AdaptiveDictionary
  pub stream_optimizer_ : StreamOptimizer
  pub buffer_pool_ : BufferPool
  pub payload_pool_ : PayloadPool
  pub adaptive_profiler_ : AdaptiveProfiler
  pub reliability_config_ : ReliabilityConfig
  pub dictionary_explicit_ : Bool
  pub optimizer_explicit_ : Bool
  pub stream_explicit_ : Bool
  pub cached_schema_name_ : Text
  pub cached_ : Option (SchemaDef × PacketLayout)

unfoldable pub register_schema :
    SchemaRuntime → SchemaDef → SchemaRegistryStatusCode × SchemaRuntime
register_schema rt schema =
    let (code, registry) = Registry.register_schema rt.registry_ schema in
    if not (is_accepted (validate_schema schema (some rt.registry_)))
    then (invalid_schema, rt)
    else (code, record rt { registry_ = registry })

-- The lookup by name, behind which the schema is cached.
unfoldable pub find_registered :
    SchemaRuntime → Text → Outcome (SchemaDef × PacketLayout) × SchemaRuntime
find_registered rt name = elim (find_by_name rt.registry_ name) [
  | none ↦ (failed schema_not_found, rt)
  | some schema ↦ elim (find_layout_by_name rt.registry_ name) [
    | none ↦ (failed schema_invalid, rt)
    | some layout ↦ (
      done (schema, layout),
      record rt { cached_schema_name_ = name; cached_ = some (schema, layout) },
    )
  ]
]

-- What is cached is used, if there is something and the names are the same.
unfoldable pub from_cache :
    SchemaRuntime
    → Text
    → Option (SchemaDef × PacketLayout)
    → Bool
    → Outcome (SchemaDef × PacketLayout) × SchemaRuntime
unfolding find_registered
from_cache rt name none same_name = find_registered rt name
from_cache rt name (some cached) true = (done cached, rt)
from_cache rt name (some cached) false = find_registered rt name

-- The lookup of `send` and of `send_ordered`.
unfoldable pub find_cached :
    SchemaRuntime → Text → Outcome (SchemaDef × PacketLayout) × SchemaRuntime
unfolding from_cache
find_cached rt name = from_cache rt name rt.cached_ (text_eq name rt.cached_schema_name_)

-- `dictionary_.configure`, whose loop ends on every dictionary that the methods make.
unfoldable pub configured : AdaptiveDictionary → AdaptiveDictionaryConfig → AdaptiveDictionary
configured d config = elim (Dictionary.configure d config) [ none ↦ d | some d' ↦ d' ]

unfoldable pub apply_optimization_settings :
    SchemaRuntime
    → AdaptiveDictionaryConfig
    → RuntimeOptimizerConfig
    → StreamOptimizerConfig
    → SchemaRuntime
unfolding configured
apply_optimization_settings rt dictionary optimizer stream =
    let before = rt.stream_optimizer_.config.enable_delta_packets in
    let delta_toggled =
      if before then not stream.enable_delta_packets else stream.enable_delta_packets in
    let sender = Sender.configure rt.stream_optimizer_ stream in
    record rt {
      dictionary_ = configured rt.dictionary_ dictionary;
      optimizer_config_ = optimizer;
      stream_optimizer_ = if delta_toggled then Sender.reset_delta_state sender else sender;
    }

-- `apply_decisions` of src/schema/adaptive_profiler.cpp.
unfoldable pub apply_decisions : SchemaRuntime → SchemaRuntime
unfolding apply_optimization_settings
apply_decisions rt =
    let p = rt.adaptive_profiler_ in
    let dictionary = rt.dictionary_.config in
    let stream = rt.stream_optimizer_.config in
    apply_optimization_settings rt
      (if not rt.dictionary_explicit_
        then record dictionary { enabled = p.dictionary_enabled_ }
        else dictionary)
      rt.optimizer_config_
      (if not rt.stream_explicit_
        then record stream { enable_delta_packets = p.delta_enabled_ }
        else stream)

module _ (floats : Floats) (at_least : Ratios) where
  -- What `send` does with the profiler behind a packet that was encoded.
  unfoldable pub profiled : SchemaRuntime → Text → NamedPayload → SchemaRuntime
  unfolding apply_decisions
  profiled rt name payload =
      let (applies, p) = decide at_least (observe floats rt.adaptive_profiler_ name payload) in
      let after : SchemaRuntime = record rt { adaptive_profiler_ = p } in
      if applies then apply_decisions after else after

unfoldable pub set_optimizer_config : SchemaRuntime → RuntimeOptimizerConfig → SchemaRuntime
set_optimizer_config rt config = record rt {
  optimizer_config_ = config;
  optimizer_explicit_ = true;
}

unfoldable pub set_dictionary_config : SchemaRuntime → AdaptiveDictionaryConfig → SchemaRuntime
unfolding configured
set_dictionary_config rt config = record rt {
  dictionary_ = configured rt.dictionary_ config;
  dictionary_explicit_ = true;
}

unfoldable pub reset_dictionary : SchemaRuntime → SchemaRuntime
reset_dictionary rt = record rt { dictionary_ = Dictionary.reset rt.dictionary_ }

unfoldable pub set_stream_optimizer_config : SchemaRuntime → StreamOptimizerConfig → SchemaRuntime
set_stream_optimizer_config rt config = record rt {
  stream_optimizer_ = Sender.configure rt.stream_optimizer_ config;
  stream_explicit_ = true;
}

unfoldable pub reset_stream_optimizer : SchemaRuntime → SchemaRuntime
reset_stream_optimizer rt = record rt { stream_optimizer_ = Sender.reset rt.stream_optimizer_ }

unfoldable pub set_adaptive_config : SchemaRuntime → AdaptiveProfilerConfig → SchemaRuntime
set_adaptive_config rt config = record rt {
  adaptive_profiler_ = Profiler.configure rt.adaptive_profiler_ config;
}

unfoldable pub reset_adaptive_profiler : SchemaRuntime → SchemaRuntime
reset_adaptive_profiler rt = record rt { adaptive_profiler_ = Profiler.reset rt.adaptive_profiler_ }

unfoldable pub set_reliability_config : SchemaRuntime → ReliabilityConfig → SchemaRuntime
set_reliability_config rt config = record rt {
  reliability_config_ = record config {
    max_recovered_packets =
        if config.max_recovered_packets == 0 then 1 else config.max_recovered_packets;
  };
}

unfoldable pub set_buffer_pool_config : SchemaRuntime → BufferPoolConfig → SchemaRuntime
set_buffer_pool_config rt config = record rt {
  buffer_pool_ = BufferPool.configure rt.buffer_pool_ config;
}

unfoldable pub set_payload_pool_config : SchemaRuntime → PayloadPoolConfig → SchemaRuntime
set_payload_pool_config rt config = record rt {
  payload_pool_ = PayloadPool.configure rt.payload_pool_ config;
}

unfoldable pub reset_memory_pools : SchemaRuntime → SchemaRuntime
reset_memory_pools rt = record rt {
  buffer_pool_ = BufferPool.reset rt.buffer_pool_;
  payload_pool_ = PayloadPool.reset rt.payload_pool_;
}
