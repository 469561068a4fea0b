-- ===== src/Schema/Stream/Sender/Keyframes.antt =====
-- When the stream optimizer sends a keyframe.
use keydrop.Base.{ℕ, Bool, ◌&&◌, leb}
use keydrop.Base.{List, Option, Text, text_key}
use keydrop.Schema.Types.{SchemaDef}
use keydrop.Schema.Values.{NamedPayload}
use keydrop.Schema.Stream.Changes.{Floats, payload_equals}
use keydrop.Schema.Stream.Frames.{build_delta_packet}
use keydrop.Schema.Stream.Sender.{StreamOptimizer, count_of}
use keydrop.Schema.Stream.Sender.InStep.{seq}

module _ (floats : Floats) (schema : SchemaDef) (name : Text) (payload : NamedPayload)
    (encoded : List ℕ) (o : StreamOptimizer) where
  abbrev building : NamedPayload → Option (List ℕ)
  building previous =
      build_delta_packet floats schema previous payload (seq floats schema name payload encoded o)

  module _ (aggressive : Bool) (previous : NamedPayload) where
    abbrev same : Bool
    same = o.config.enable_packet_reuse && payload_equals floats previous payload

    abbrev due : Bool
    due = leb o.config.keyframe_interval (count_of name o.record_count_by_schema)
