-- ===== src/Metrics/Registry/Conserve.antt =====
-- No count is lost or counted twice on its way from a function instance to the registry.
use native.Mathlib.Omega.{arith}
use native.Mathlib.Nat.{add-zero}
use fx.Prelude.{
  Eq, nat_eq, string_eq, ℕ, ℤ, ◌+◌, ◌%◌, ◌≡◌, Option, some, List, [], ◌∷◌, ◌==◌, ==_iff,
  if◌then◌else◌, unwrap_or, get_elem?, inl, inr, Option-cases, subst,
}
use fx.Prelude.Dict.{Dict, lookup, IsUnique, lookup-insert, insert-IsUnique}
use fx.Metrics.{
  MetricKey, metric_key_eq, FunctionMetricsState, FunctionMetricsDelta, u64_mod, add_to, add_all,
  append, counter_register, counter_increment, gauge_update, flush_delta, ◌>>=◌,
}
use fx.Metrics.Series.{IsIndexed, counter_register-IsIndexed, counter_register-keeps}
use fx.Metrics.Flush.{flush_exact, flush-IsUnique}

-- The count that a map holds, 0 where it holds none.
abbrev pub count {ℓ} : {K : Type ℓ} ⦃e : Eq K⦄ → K → Dict K ℕ → ℕ
count key m = unwrap_or (lookup key m) 0

count-add_to {ℓ} :
    {K : Type ℓ} ⦃e : Eq K⦄ (k j : K) (delta : ℕ) (m : Dict K ℕ)
    → count j (add_to k delta m) ≡ (if k == j then (count j m + delta) % u64_mod else count j m)
unfolding add_to
count-add_to k j delta m =
    ground (arith, ==_iff k j, lookup-insert k j ((count k m + delta) % u64_mod) m)

add_to-IsUnique {ℓ} :
    {K : Type ℓ} ⦃e : Eq K⦄ (k : K) (delta : ℕ) (m : Dict K ℕ)
    → IsUnique m
    → IsUnique (add_to k delta m)
unfolding add_to
add_to-IsUnique k delta m u = insert-IsUnique k ((count k m + delta) % u64_mod) m u

-- Appending a delta adds its counts, each modulo 2 ^ 64.
count-add_all :
    (key : MetricKey) (m d : Dict MetricKey ℕ)
    → IsUnique d
    → count key (add_all m d) % u64_mod ≡ (count key m + count key d) % u64_mod
unfolding add_all lookup
count-add_all key m [] u = omega arith
count-add_all key m ((k, delta) ∷ d) u = ground (
  arith,
  ==_iff k key,
  u.0,
  count-add_all key (add_to k delta m) d u.1,
  count-add_to k key delta m,
)

-- One function instance with what the registry has of it.
pub record Pipeline : Type 0 where
  pub state : FunctionMetricsState
  pub total : FunctionMetricsDelta

pub data Event : Type 0 where
  registers : MetricKey → Event
  increments : ℕ → ℕ → Event
  updates : ℕ → ℤ → Event
  flushes : Event

-- `none` when the flush panics.
unfoldable pub step : Pipeline → Event → Option Pipeline
unfolding counter_register counter_increment gauge_update flush_delta append
step p (registers key) = some (record p { state = (counter_register p.state key).0 })
step p (increments id delta) = some (record p { state = counter_increment p.state id delta })
step p (updates id value) = some (record p { state = gauge_update p.state id value })
step p flushes = do
  (state, d) ← flush_delta p.state
  some (record { state = state; total = append p.total d })

unfoldable pub run : Pipeline → List Event → Option Pipeline
run p [] = some p
run p (e ∷ es) = do p' ← step p e; run p' es

-- The increments of one id in a run.
abbrev pub counted : ℕ → List Event → ℕ
counted id [] = 0
counted id (increments i delta ∷ es) = (if i == id then delta else 0) + counted id es
counted id (_ ∷ es) = counted id es

pub record IsTidy (p : Pipeline) : Type 0 where
  pub indexed : IsIndexed p.state
  pub counters : IsUnique p.state.metrics_counter_delta
  pub gauges : IsUnique p.state.gauges_updates

-- What the registry and the instance together hold of a series.
abbrev pub held : ℕ → MetricKey → Pipeline → ℕ
held id key p = count key p.total.counters_delta + count id p.state.metrics_counter_delta

module _ (id : ℕ) (key : MetricKey) where
  abbrev pub Keeps : Pipeline → ℕ → Pipeline → Type 0
  Keeps p n q =
      IsTidy q
      × (get_elem? q.state.metrics_series id ≡ some key)
      × (held id key q % u64_mod ≡ (held id key p + n) % u64_mod)

  register-Keeps :
      (p : Pipeline) (k : MetricKey)
      → IsTidy p
      → get_elem? p.state.metrics_series id ≡ some key
      → Keeps p 0 (record p { state = (counter_register p.state k).0 })
  unfolding counter_register
  register-Keeps p k tidy has = (
    record {
      indexed = counter_register-IsIndexed tidy.indexed k;
      counters = ground (arith, tidy.counters);
      gauges = ground (arith, tidy.gauges);
    },
    counter_register-keeps p.state k id has,
    ground arith,
  )

  increment-Keeps :
      (p : Pipeline) (i delta : ℕ)
      → IsTidy p
      → get_elem? p.state.metrics_series id ≡ some key
      → Keeps p
          (if i == id then delta else 0)
          (record p { state = counter_increment p.state i delta })
  unfolding counter_increment
  increment-Keeps p i delta tidy has = (
    record {
      indexed = record { sound = tidy.indexed.sound; complete = tidy.indexed.complete };
      counters = add_to-IsUnique i delta p.state.metrics_counter_delta tidy.counters;
      gauges = tidy.gauges;
    },
    has,
    ground (arith, count-add_to i id delta p.state.metrics_counter_delta),
  )

  update-Keeps :
      (p : Pipeline) (i : ℕ) (value : ℤ)
      → IsTidy p
      → get_elem? p.state.metrics_series id ≡ some key
      → Keeps p 0 (record p { state = gauge_update p.state i value })
  unfolding gauge_update
  update-Keeps p i value tidy has = (
    record {
      indexed = record { sound = tidy.indexed.sound; complete = tidy.indexed.complete };
      counters = tidy.counters;
      gauges = insert-IsUnique i value p.state.gauges_updates tidy.gauges;
    },
    has,
    ground arith,
  )

  flush-Keeps :
      (p : Pipeline) (after : FunctionMetricsState) (d : FunctionMetricsDelta)
      → IsTidy p
      → get_elem? p.state.metrics_series id ≡ some key
      → flush_delta p.state ≡ some (after, d)
      → Keeps p 0 (record p { state = after; total = append p.total d })
  unfolding append lookup
  flush-Keeps p after d tidy has e =
      let (same, _, left) =
        flush_exact p.state tidy.indexed tidy.counters tidy.gauges id key has e in
      (
        record {
          indexed = record {
            sound = λ k i h. ground (arith, tidy.indexed.sound k i);
            complete = λ i k h. ground (arith, tidy.indexed.complete i k);
          };
          counters = ground arith;
          gauges = ground arith;
        },
        ground arith,
        ground (
          arith,
          count-add_all key p.total.counters_delta d.counters_delta (flush-IsUnique p.state e),
        ),
      )

  pub step-Keeps :
      (p q : Pipeline) (e : Event)
      → IsTidy p
      → get_elem? p.state.metrics_series id ≡ some key
      → step p e ≡ some q
      → Keeps p (counted id (e ∷ [])) q
  unfolding step
  step-Keeps p q (registers k) tidy has e =
      subst (Keeps p 0) (ground arith) (register-Keeps p k tidy has)
  step-Keeps p q (increments i delta) tidy has e =
      let n = counted id (increments i delta ∷ []) in
      subst (Keeps p n) {x = record p { state = counter_increment p.state i delta }} (ground arith)
        (rw add-zero (increment-Keeps p i delta tidy has))
  step-Keeps p q (updates i value) tidy has e =
      subst (Keeps p 0) (ground arith) (update-Keeps p i value tidy has)
  step-Keeps p q flushes tidy has e = elim (Option-cases (flush_delta p.state)) [
    | inl failed ↦ absurd (ground arith)
    | inr (r, worked) ↦
        subst (Keeps p 0) {x = record p { state = r.0; total = append p.total r.1 }} (ground arith)
          (flush-Keeps p r.0 r.1 tidy has worked)
  ]
