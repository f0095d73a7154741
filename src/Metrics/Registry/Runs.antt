-- ===== src/Metrics/Registry/Runs.antt =====
-- Whole runs of one function instance and the registry: they do not panic, and they conserve counts.
use native.Mathlib.Omega.{arith}
use fx.Prelude.{
  nat_eq, string_eq, ℕ, ◌+◌, ◌%◌, ◌<◌, ◌≤◌, ◌≡◌, refl, some, List, [], ◌∷◌, length, get_elem?, inl,
  inr, Option-cases, length-append,
}
use fx.Prelude.Dict.{Dict, insert}
use fx.Metrics.{
  MetricKey, metric_key_eq, FunctionMetricsState, u64_mod, counter_register, flush_delta, append,
}
use fx.Metrics.Flush.{AllBelow, flush_total_iff, flush_leaves}
use fx.Metrics.Registry.Conserve.{
  Pipeline, Event, registers, increments, updates, flushes, step, run, counted, IsTidy, held,
  step-Keeps,
}

-- The ids that a run counts and sets are below a bound.
abbrev pub IdsBelow : ℕ → List Event → Type 0
IdsBelow n [] = Unit
IdsBelow n (increments i delta ∷ es) = (i < n) × IdsBelow n es
IdsBelow n (updates i value ∷ es) = (i < n) × IdsBelow n es
IdsBelow n (_ ∷ es) = IdsBelow n es

-- No pending id is out of range.
pub record IsCovered (n : ℕ) (p : Pipeline) : Type 0 where
  pub bound : n ≤ length p.state.metrics_series
  pub counters : AllBelow (length p.state.metrics_series) p.state.metrics_counter_delta
  pub gauges : AllBelow (length p.state.metrics_series) p.state.gauges_updates

AllBelow-insert {ℓ} :
    {V : Type ℓ} (n k : ℕ) (v : V) (m : Dict ℕ V) → k < n → AllBelow n m → AllBelow n (insert k v m)
unfolding insert
AllBelow-insert n k v [] h below = (h, tt)
AllBelow-insert n k v ((j, w) ∷ m) h below = ground (arith, AllBelow-insert n k v m h below.1)

AllBelow-mono {ℓ} : {V : Type ℓ} (n k : ℕ) (m : Dict ℕ V) → n ≤ k → AllBelow n m → AllBelow k m
AllBelow-mono n k [] h below = tt
AllBelow-mono n k ((j, w) ∷ m) h below = (omega arith, AllBelow-mono n k m h below.1)

length-register :
    (s : FunctionMetricsState) (key : MetricKey)
    → length s.metrics_series ≤ length (counter_register s key).0.metrics_series
unfolding counter_register
length-register s key = ground (arith, length-append s.metrics_series (key ∷ []))

register-pending :
    (s : FunctionMetricsState) (key : MetricKey)
    → ((counter_register s key).0.metrics_counter_delta ≡ s.metrics_counter_delta)
      × ((counter_register s key).0.gauges_updates ≡ s.gauges_updates)
unfolding counter_register
register-pending s key = ground arith

counted-cons :
    (id : ℕ) (e : Event) (es : List Event)
    → counted id (e ∷ es) ≡ counted id (e ∷ []) + counted id es
counted-cons id (registers key) es = omega arith
counted-cons id (increments i delta) es = ground arith
counted-cons id (updates i value) es = omega arith
counted-cons id flushes es = omega arith

module _ (n : ℕ) where
  step-IsCovered :
      (p : Pipeline) (e : Event) (es : List Event)
      → IsCovered n p
      → IdsBelow n (e ∷ es)
      → (q : Pipeline) × (step p e ≡ some q) × IsCovered n q
  unfolding step
  step-IsCovered p (registers key) es c h =
      let grown = length-register p.state key in
      let size = length (counter_register p.state key).0.metrics_series in
      let (counters, gauges) = register-pending p.state key in
      (
        _,
        refl,
        record {
          bound = omega (arith, c.bound);
          counters =
              rw counters (AllBelow-mono _ size p.state.metrics_counter_delta grown c.counters);
          gauges = rw gauges (AllBelow-mono _ size p.state.gauges_updates grown c.gauges);
        },
      )
  step-IsCovered p (increments i delta) es c h = (
    _,
    refl,
    record {
      bound = c.bound;
      counters =
          AllBelow-insert _ i _ p.state.metrics_counter_delta (omega (arith, h.0, c.bound))
            c.counters;
      gauges = c.gauges;
    },
  )
  step-IsCovered p (updates i value) es c h = (
    _,
    refl,
    record {
      bound = c.bound;
      counters = c.counters;
      gauges =
          AllBelow-insert _ i value p.state.gauges_updates (omega (arith, h.0, c.bound)) c.gauges;
    },
  )
  step-IsCovered p flushes es c h = elim (Option-cases (flush_delta p.state)) [
    | inl failed ↦ absurd ((flush_total_iff p.state).0.1 (c.counters, c.gauges) failed)
    | inr (r, worked) ↦ (
      record p { state = r.0; total = append p.total r.1 },
      ground arith,
      let left = flush_leaves p.state worked in
          record { bound = ground (arith, c.bound); counters = rw left tt; gauges = rw left tt },
    )
  ]

  IdsBelow-tail : (e : Event) (es : List Event) → IdsBelow n (e ∷ es) → IdsBelow n es
  IdsBelow-tail (registers key) es h = h
  IdsBelow-tail (increments i delta) es h = h.1
  IdsBelow-tail (updates i value) es h = h.1
  IdsBelow-tail flushes es h = h

  -- From a state whose tables are inverse and whose pending ids are in range, a run that counts and
  -- sets only ids below `n`, a bound on the series registered at its start, never panics, and
  -- for every registered series the registry's count together with the pending one grows by exactly
  -- the increments made to that series, modulo 2 ^ 64, wherever the flushes fall.
  pub run-conserves :
      (id : ℕ) (key : MetricKey) (p : Pipeline) (es : List Event)
      → IsTidy p
      → IsCovered n p
      → get_elem? p.state.metrics_series id ≡ some key
      → IdsBelow n es
      → (q : Pipeline) × (run p es ≡ some q)
        × (held id key q % u64_mod ≡ (held id key p + counted id es) % u64_mod)
  unfolding run
  run-conserves id key p [] tidy c has h = (p, refl, ground arith)
  run-conserves id key p (e ∷ es) tidy c has h =
      let (p', stepped, covered) = step-IsCovered p e es c h in
      let (tidy', has', one) = step-Keeps id key p p' e tidy has stepped in
      let (q, ran, rest) = run-conserves id key p' es tidy' covered has' (IdsBelow-tail e es h) in
      (q, rw stepped ran, omega (arith, one, rest, counted-cons id e es))
