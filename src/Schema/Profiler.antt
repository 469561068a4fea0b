-- ===== src/Schema/Profiler.antt =====
-- src/schema/adaptive_profiler.cpp, up to the call that hands its decisions to the runtime: what is
-- observed of the payloads that are sent, and what is decided at the end of a window. An entry
-- that `operator[]` adds with an empty set is not told from one that is not there. The loop over an
-- unordered map takes the entries in the order of the list. Counts stay below 2 ^ 64.
use keydrop.Base.{
  ℕ, ◌+◌, ltb, ◌==◌, not, Bool, true, false, ◌&&◌, ◌||◌, List, [], ◌∷◌, Option, none, some, length,
}
use keydrop.Base.{if◌then◌else◌, Text, text_key, find, assign}
use keydrop.Schema.Values.{FieldValue, NamedPayload}
use keydrop.Schema.Validator.{contains}
use keydrop.Schema.Stream.Changes.{Floats, value_equals}

-- A threshold is the bit pattern of a float.
pub record AdaptiveProfilerConfig : Type 0 where
  pub enabled : Bool
  pub window_size : ℕ
  pub repeated_string_ratio_threshold : ℕ
  pub dictionary_hit_rate_threshold : ℕ
  pub unchanged_field_ratio_threshold : ℕ

pub record WindowStats : Type 0 where
  pub samples : ℕ
  pub string_observations : ℕ
  pub repeated_strings : ℕ
  pub predictive_hits : ℕ
  pub unchanged_fields : ℕ
  pub total_fields : ℕ
  pub strings : List Text
  pub last_payload : NamedPayload

abbrev pub no_stats : WindowStats
no_stats = record {
  samples = 0;
  string_observations = 0;
  repeated_strings = 0;
  predictive_hits = 0;
  unchanged_fields = 0;
  total_fields = 0;
  strings = [];
  last_payload = [];
}

pub record AdaptiveProfiler : Type 0 where
  pub config_ : AdaptiveProfilerConfig
  pub stats_ : List (Text × WindowStats)
  pub previous_strings_ : List (Text × List Text)
  pub dictionary_enabled_ : Bool
  pub delta_enabled_ : Bool
  pub decisions_applied_ : Bool

unfoldable pub configure : AdaptiveProfiler → AdaptiveProfilerConfig → AdaptiveProfiler
configure p config = record p {
  config_ = record config {
    window_size = if config.window_size == 0 then 1 else config.window_size;
  };
}

unfoldable pub reset : AdaptiveProfiler → AdaptiveProfiler
reset p = record p {
  stats_ = [];
  previous_strings_ = [];
  dictionary_enabled_ = false;
  delta_enabled_ = false;
  decisions_applied_ = false;
}

-- The set of the last window.
unfoldable pub previous_of : Text → AdaptiveProfiler → List Text
previous_of name p = elim (find name p.previous_strings_) [ none ↦ [] | some strings ↦ strings ]

abbrev pub insert_string : Text → List Text → List Text
insert_string s strings = if contains strings s then strings else s ∷ strings

-- Whether a quotient of two counts, or 0.0 for `none`, is `>=` a threshold.
abbrev pub Ratios : Type 0
Ratios = Option (ℕ × ℕ) → ℕ → Bool

module _ (floats : Floats) where
  -- A value of another type is not equal.
  unfoldable pub field_values_equal : FieldValue → FieldValue → Bool
  field_values_equal left right = value_equals floats left right

  unfoldable pub observe_string : List Text → WindowStats → FieldValue → WindowStats
  observe_string previous stats (FieldValue.string s) = record stats {
    string_observations = stats.string_observations + 1;
    repeated_strings =
        if contains stats.strings s then stats.repeated_strings + 1 else stats.repeated_strings;
    predictive_hits =
        if contains previous s then stats.predictive_hits + 1 else stats.predictive_hits;
    strings = insert_string s stats.strings;
  }
  observe_string previous stats _ = stats

  -- The loop over the fields of the payload.
  unfoldable pub observe_fields : List Text → NamedPayload → WindowStats → WindowStats
  unfolding field_values_equal observe_string
  observe_fields previous [] stats = stats
  observe_fields previous ((name, value) ∷ rest) stats =
      let unchanged : Bool = elim (find name stats.last_payload) [
        | none ↦ false
        | some last ↦ field_values_equal last value
      ] in
      let counted : WindowStats = record stats {
        total_fields = stats.total_fields + 1;
        unchanged_fields = if unchanged then stats.unchanged_fields + 1 else stats.unchanged_fields;
      } in
      observe_fields previous rest (observe_string previous counted value)

  unfoldable pub observe : AdaptiveProfiler → Text → NamedPayload → AdaptiveProfiler
  unfolding observe_fields previous_of
  observe p name payload =
      let stats : WindowStats = elim (find name p.stats_) [
        | none ↦ no_stats
        | some stats ↦ stats
      ] in
      let seen = observe_fields (previous_of name p) payload stats in
      if not p.config_.enabled then p else record p {
        stats_ =
            assign name (record seen { last_payload = payload; samples = stats.samples + 1 })
              p.stats_;
      }

-- What the loop over the windows changes.
pub record Windows : Type 0 where
  pub profiler : AdaptiveProfiler
  pub changed : Bool
  pub window_completed : Bool

abbrev pub quotient : ℕ → ℕ → Option (ℕ × ℕ)
quotient a b = if ltb 0 b then some (a, b) else none

abbrev differ : Bool → Bool → Bool
differ a b = if a then not b else b

module _ (at_least : Ratios) where
  unfoldable pub want_dictionary : AdaptiveProfiler → Text → WindowStats → Bool
  unfolding previous_of
  want_dictionary p name stats =
      let hits =
        if length (previous_of name p) == 0
        then stats.repeated_strings
        else stats.predictive_hits in
      at_least (quotient stats.repeated_strings stats.string_observations)
        p.config_.repeated_string_ratio_threshold
      && at_least (quotient hits stats.string_observations) p.config_.dictionary_hit_rate_threshold

  unfoldable pub want_delta : AdaptiveProfiler → WindowStats → Bool
  want_delta p stats =
      at_least (quotient stats.unchanged_fields stats.total_fields)
        p.config_.unchanged_field_ratio_threshold

  -- One round of the loop.
  unfoldable pub close_window : Windows → Text × WindowStats → Windows
  unfolding want_dictionary want_delta
  close_window w (name, stats) =
      let p = w.profiler in
      if ltb stats.samples p.config_.window_size then w else record {
        profiler = record p {
          dictionary_enabled_ = want_dictionary p name stats;
          delta_enabled_ = want_delta p stats;
          previous_strings_ = assign name stats.strings p.previous_strings_;
          stats_ = assign name no_stats p.stats_;
        };
        changed =
            w.changed
            || (differ (want_dictionary p name stats) p.dictionary_enabled_
                || differ (want_delta p stats) p.delta_enabled_);
        window_completed = true;
      }

  unfoldable pub close_windows : Windows → List (Text × WindowStats) → Windows
  unfolding close_window
  close_windows w [] = w
  close_windows w (entry ∷ rest) = close_windows (close_window w entry) rest

  -- `maybe_apply` up to the call of `apply_decisions`, and whether it is made.
  unfoldable pub decide : AdaptiveProfiler → Bool × AdaptiveProfiler
  unfolding close_windows
  decide p =
      let w =
        close_windows (record { profiler = p; changed = false; window_completed = false })
          p.stats_ in
      if not p.config_.enabled
      then (false, p)
      else if w.window_completed && (w.changed || not w.profiler.decisions_applied_)
      then (true, record (w.profiler) { decisions_applied_ = true })
      else (false, w.profiler)
