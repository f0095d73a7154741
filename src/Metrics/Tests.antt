-- ===== src/Metrics/Tests.antt =====
-- The metrics' theorems at concrete states, runs and labels.
use fx.Prelude.{
  ◌⊎◌, nat_eq, list_eq, string_eq, pair_eq, ℕ, ℤ, ◌%◌, ◌+◌, Bool, true, false, Option, none, some,
  List, [], ◌∷◌, ◌++◌, String, ◌≡◌, ◌≢◌, ◌↔◌, refl, get_elem?, All, length, arith,
}
use fx.Prelude.Dict.{lookup}
use fx.Metrics.{
  MetricKey, metric_key_eq, FunctionMetricsState, FunctionMetricsDelta, new_state, counter_register,
  flush_delta, u64_mod,
}
use fx.Metrics.Series.{
  IsIndexed, register_all, counter_register_twice, counter_register-IsIndexed, new_state-IsIndexed,
}
use fx.Metrics.Flush.{AllBelow, flush_total_iff, flush_exact}
use fx.Metrics.Registry.Conserve.{
  Pipeline, Event, registers, increments, flushes, run, IsTidy, held,
}
use fx.Metrics.Registry.Runs.{IsCovered, run-conserves}
use fx.Metrics.Encode.{Text, escape_label_value}
use fx.Metrics.Encode.Reading.{read_value, read_value-escape}

abbrev requests : MetricKey
requests = record { name = "requests"; labels = [] }

abbrev failures : MetricKey
failures = record { name = "failures"; labels = [] }

abbrev retries : MetricKey
retries = record { name = "retries"; labels = [] }

abbrev one_series : FunctionMetricsState
one_series = record {
  metrics_series = requests ∷ [];
  metric_key_to_ids = (requests, 0) ∷ [];
  metrics_counter_delta = (0, 5) ∷ [];
  gauges_updates = [];
}

one_series-IsIndexed : IsIndexed one_series
unfolding counter_register new_state fx.Prelude.Dict.insert lookup
one_series-IsIndexed =
    let i = counter_register-IsIndexed new_state-IsIndexed requests in
    record { sound = i.sound; complete = i.complete }

counter_register_twice_example :
    let (s₁, id) = counter_register one_series requests in
    let (s₂, id') = counter_register (register_all s₁ (failures ∷ retries ∷ [])) failures in
    (counter_register s₂ requests ≡ (s₂, id)) × ((id ≡ id') ↔ (requests ≡ failures))
counter_register_twice_example =
    counter_register_twice one_series requests (failures ∷ retries ∷ []) failures
      one_series-IsIndexed

flush_total_iff_example :
    ((flush_delta one_series ≢ none)
      ↔ (AllBelow 1 one_series.metrics_counter_delta × AllBelow 1 one_series.gauges_updates))
    × ((flush_delta one_series ≡ none)
        ⊎ ((d : FunctionMetricsDelta) × (flush_delta one_series
              ≡ some (record one_series { metrics_counter_delta = []; gauges_updates = [] }, d))))
flush_total_iff_example = flush_total_iff one_series

abbrev flushed : FunctionMetricsState
flushed = record one_series { metrics_counter_delta = [] }

abbrev handed_over : FunctionMetricsDelta
handed_over = record { counters_delta = (requests, 5) ∷ []; gauges_updates = [] }

flush_exact_example :
    (lookup requests handed_over.counters_delta ≡ lookup 0 one_series.metrics_counter_delta)
    × (lookup requests handed_over.gauges_updates ≡ lookup 0 one_series.gauges_updates)
    × (flushed ≡ record one_series { metrics_counter_delta = []; gauges_updates = [] })
unfolding flush_delta lookup fx.Prelude.Dict.extend
flush_exact_example =
    flush_exact one_series one_series-IsIndexed (refl, tt) tt 0 requests refl {after = flushed}
      {d = handed_over} refl

abbrev busy : List Event
busy = increments 0 2 ∷ flushes ∷ registers failures ∷ increments 0 3 ∷ []

abbrev start : Pipeline
start = record { state = one_series; total = record { counters_delta = []; gauges_updates = [] } }

start-IsTidy : IsTidy start
unfolding lookup
start-IsTidy = record { indexed = one_series-IsIndexed; counters = (refl, tt); gauges = tt }

start-IsCovered : IsCovered 1 start
start-IsCovered = record { bound = omega arith; counters = (omega arith, tt); gauges = tt }

run-conserves_example :
    (q : Pipeline) × (run start busy ≡ some q)
    × (held 0 requests q % u64_mod ≡ (held 0 requests start + 5) % u64_mod)
run-conserves_example =
    run-conserves 1 0 requests start busy start-IsTidy start-IsCovered refl
      (omega arith, (omega arith, tt))

-- `a"`, a backslash and a line feed, with `}` behind the closing quote.
abbrev awkward : Text
awkward = 97 ∷ 34 ∷ 92 ∷ 10 ∷ []

read_value-escape_example :
    read_value (escape_label_value awkward ++ 34 ∷ 125 ∷ []) ≡ some (awkward, 125 ∷ [])
read_value-escape_example = read_value-escape awkward (125 ∷ [])
