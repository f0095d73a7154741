-- ===== src/Metrics.antt =====
-- Metrics, fx-runtime/src/effects/metrics.rs: what one function instance records between two
-- flushes, and the registry that adds the flushed deltas up.
-- `u64` sums wrap, as in a release build (a debug build panics there). The registry's `RwLock`s
-- are left out: every method takes one lock and holds it to its end.
pub mod Series
pub mod Flush
pub mod Registry
pub mod Encode
mod Tests
use fx.Prelude.{
  nat_eq, list_eq, pair_eq, string_eq, pair_beq, pair_beq_iff, ℕ, ◌+◌, ◌%◌, ◌^◌, ◌≡◌, ◌↔◌, Bool,
  true, false, ◌&&◌, Option, none, some, List, [], ◌∷◌, ◌++◌, String, Eq, ◌==◌, ==_iff, arith,
  length, get_elem?, unwrap_or, ℤ,
}
use fx.Prelude.Dict.{Dict, lookup, insert, extend}

pub record MetricKey : Type 0 where
  pub name : String
  pub labels : List (String × String)

abbrev pub metric_key_beq : MetricKey → MetricKey → Bool
metric_key_beq a b = (a.name == b.name) && (a.labels == b.labels)

pub metric_key_beq_iff : (a b : MetricKey) → (metric_key_beq a b ≡ true) ↔ (a ≡ b)
metric_key_beq_iff a b = ground (arith, ==_iff a.name b.name, ==_iff a.labels b.labels)

instance abbrev pub metric_key_eq : Eq MetricKey
metric_key_eq = record { beq = metric_key_beq; beq_iff = metric_key_beq_iff }

unfoldable pub new_key : String → MetricKey
new_key name = record { name = name; labels = [] }

unfoldable pub with_label : MetricKey → String → String → MetricKey
with_label key label value = record key { labels = key.labels ++ (label, value) ∷ [] }

abbrev pub u64_mod : ℕ
u64_mod = 18446744073709551616

-- A `MetricId` is the number in it.
pub record FunctionMetricsState : Type 0 where
  pub metrics_series : List MetricKey
  pub metric_key_to_ids : Dict MetricKey ℕ
  pub metrics_counter_delta : Dict ℕ ℕ
  pub gauges_updates : Dict ℕ ℤ

pub record FunctionMetricsDelta : Type 0 where
  pub counters_delta : Dict MetricKey ℕ
  pub gauges_updates : Dict MetricKey ℤ

unfoldable pub new_state : FunctionMetricsState
new_state = record {
  metrics_series = [];
  metric_key_to_ids = [];
  metrics_counter_delta = [];
  gauges_updates = [];
}

-- `*map.entry(key).or_insert(0) += delta`
unfoldable pub add_to {ℓ} : {K : Type ℓ} ⦃e : Eq K⦄ → K → ℕ → Dict K ℕ → Dict K ℕ
add_to key delta m = insert key ((unwrap_or (lookup key m) 0 + delta) % u64_mod) m

register_found : FunctionMetricsState → MetricKey → Option ℕ → FunctionMetricsState × ℕ
register_found s key (some id) = (s, id)
register_found s key none =
    let index = length s.metrics_series in
    (
      record s {
        metrics_series = s.metrics_series ++ key ∷ [];
        metric_key_to_ids = insert key index s.metric_key_to_ids;
      },
      index,
    )

unfoldable pub counter_register : FunctionMetricsState → MetricKey → FunctionMetricsState × ℕ
unfolding register_found
counter_register s key = register_found s key (lookup key s.metric_key_to_ids)

unfoldable pub counter_increment : FunctionMetricsState → ℕ → ℕ → FunctionMetricsState
unfolding add_to
counter_increment s id delta = record s {
  metrics_counter_delta = add_to id delta s.metrics_counter_delta;
}

unfoldable pub gauge_update : FunctionMetricsState → ℕ → ℤ → FunctionMetricsState
gauge_update s id value = record s { gauges_updates = insert id value s.gauges_updates }

infixl 5 ◌>>=◌
abbrev pub ◌>>=◌ {ℓ κ} : {A : Type ℓ} {B : Type κ} → Option A → (A → Option B) → Option B
none >>= f = none
some a >>= f = f a

-- The `map` of `flush_delta`, over one of the maps: `none` is the panic of
-- `metrics_series.get(id).unwrap()`.
unfoldable pub resolve {ℓ} :
    {V : Type ℓ} → List MetricKey → Dict ℕ V → Option (List (MetricKey × V))
resolve series [] = some []
resolve series ((id, v) ∷ rest) = do
  key ← get_elem? series id
  pairs ← resolve series rest
  some ((key, v) ∷ pairs)

unfoldable pub flush_delta :
    FunctionMetricsState → Option (FunctionMetricsState × FunctionMetricsDelta)
unfolding resolve
flush_delta s = do
  counters ← resolve s.metrics_series s.metrics_counter_delta
  gauges ← resolve s.metrics_series s.gauges_updates
  some (
    record s { metrics_counter_delta = []; gauges_updates = [] },
    record { counters_delta = extend [] counters; gauges_updates = extend [] gauges },
  )

unfoldable pub empty_delta : FunctionMetricsDelta
empty_delta = record { counters_delta = []; gauges_updates = [] }

abbrev is_nil {ℓ} : {A : Type ℓ} → List A → Bool
is_nil [] = true
is_nil (_ ∷ _) = false

unfoldable pub is_empty : FunctionMetricsDelta → Bool
is_empty d = is_nil d.counters_delta && is_nil d.gauges_updates

-- The first loop of `append`.
unfoldable pub add_all : Dict MetricKey ℕ → Dict MetricKey ℕ → Dict MetricKey ℕ
unfolding add_to
add_all m [] = m
add_all m ((key, delta) ∷ rest) = add_all (add_to key delta m) rest

unfoldable pub append : FunctionMetricsDelta → FunctionMetricsDelta → FunctionMetricsDelta
unfolding add_all
append d other = record {
  counters_delta = add_all d.counters_delta other.counters_delta;
  gauges_updates = extend d.gauges_updates other.gauges_updates;
}
