-- ===== src/Metrics/Registry.antt =====
-- The registry that the management thread keeps, `MetricsRegistry` of
-- fx-runtime/src/effects/metrics.rs. A function's id is its text. Rust's `f64` is a type `F` with
-- the addition and the zero that the program uses.
pub mod Conserve
pub mod Runs
use fx.Prelude.{nat_eq, string_eq, ℕ, ℤ, Option, none, some, List, [], ◌∷◌, String}
use fx.Prelude.Dict.{Dict, lookup, insert}
use fx.Metrics.{MetricKey, metric_key_eq, FunctionMetricsDelta, empty_delta, add_to, append}

pub record MetricsRegistry (F : Type 0) : Type 0 where
  pub runtime_counters : Dict MetricKey ℕ
  pub runtime_counters_float : Dict MetricKey F
  pub runtime_gauges : Dict MetricKey ℤ
  pub function_metrics : Dict String FunctionMetricsDelta

abbrev delta_or_empty : Option FunctionMetricsDelta → FunctionMetricsDelta
delta_or_empty none = record { counters_delta = []; gauges_updates = [] }
delta_or_empty (some d) = d

-- The loop of `update`.
unfoldable pub update_all :
    Dict String FunctionMetricsDelta
    → Dict String FunctionMetricsDelta
    → Dict String FunctionMetricsDelta
unfolding append
update_all all [] = all
update_all all ((function_id, metrics) ∷ rest) =
    update_all (insert function_id (append (delta_or_empty (lookup function_id all)) metrics) all)
      rest

module _ {F : Type 0} where
  unfoldable pub new : MetricsRegistry F
  new = record {
    runtime_counters = [];
    runtime_counters_float = [];
    runtime_gauges = [];
    function_metrics = [];
  }

  unfoldable pub update : MetricsRegistry F → Dict String FunctionMetricsDelta → MetricsRegistry F
  unfolding update_all
  update r flushed = record r { function_metrics = update_all r.function_metrics flushed }

  unfoldable pub counter_increment : MetricsRegistry F → MetricKey → ℕ → MetricsRegistry F
  unfolding add_to
  counter_increment r key delta = record r {
    runtime_counters = add_to key delta r.runtime_counters;
  }

  unfoldable pub gauge_update : MetricsRegistry F → MetricKey → ℤ → MetricsRegistry F
  gauge_update r key value = record r { runtime_gauges = insert key value r.runtime_gauges }

  module _ (add : F → F → F) (nought : F) where
    abbrev float_or_zero : Option F → F
    float_or_zero none = nought
    float_or_zero (some x) = x

    unfoldable pub counter_float_increment : MetricsRegistry F → MetricKey → F → MetricsRegistry F
    counter_float_increment r key delta = record r {
      runtime_counters_float =
          insert key (add (float_or_zero (lookup key r.runtime_counters_float)) delta)
            r.runtime_counters_float;
    }
