-- ===== src/Metrics/Flush.antt =====
-- What `flush_delta` of fx-runtime/src/effects/metrics.rs hands over, and when it panics.
use native.Mathlib.Omega.{arith}
use fx.Prelude.{
  nat_eq, list_eq, pair_eq, string_eq, ℕ, ◌<◌, ◌≡◌, ◌≢◌, ◌↔◌, refl, ◌∙◌, none, some, List, [], ◌∷◌,
  ==_iff, subst, length, get_elem?, get_elem?-lt, get_elem?-eq_some_lt, inl, inr, Option-cases, All,
  ◌⊎◌,
}
use fx.Prelude.Dict.{Dict, lookup, extend, lookup-extend, IsUnique, extend-IsUnique}
use fx.Metrics.{
  MetricKey, metric_key_eq, FunctionMetricsState, FunctionMetricsDelta, resolve, flush_delta,
}
use fx.Metrics.Series.{IsIndexed}

-- Every id that was counted or set names a series.
abbrev pub AllBelow {ℓ} : {V : Type ℓ} → ℕ → Dict ℕ V → Type 0
AllBelow n m = All (λ e. e.0 < n) m

-- `resolve` fails exactly when an id is out of range.
resolve-some {ℓ} :
    {V : Type ℓ} (series : List MetricKey) (m : Dict ℕ V)
    → AllBelow (length series) m
    → (pairs : List (MetricKey × V)) × (resolve series m ≡ some pairs)
unfolding resolve
resolve-some series [] h = ([], refl)
resolve-some series ((id, v) ∷ rest) h =
    let (key, has) = get_elem?-lt series id h.0 in
    let (pairs, more) = resolve-some series rest h.1 in ((key, v) ∷ pairs, rw (has, more))

resolve-AllBelow {ℓ} :
    {V : Type ℓ} (series : List MetricKey) (m : Dict ℕ V) (pairs : List (MetricKey × V))
    → resolve series m ≡ some pairs
    → AllBelow (length series) m
unfolding resolve
resolve-AllBelow series [] pairs e = tt
resolve-AllBelow series ((id, v) ∷ rest) pairs e = elim (Option-cases (get_elem? series id)) [
  | inl missing ↦ ground arith
  | inr (key, has) ↦ elim (Option-cases (resolve series rest)) [
    | inl failed ↦ ground arith
    | inr (more, worked) ↦
        (get_elem?-eq_some_lt series id has, resolve-AllBelow series rest more worked)
  ]
]

succeeds_iff :
    (s : FunctionMetricsState)
    → (flush_delta s ≢ none) ↔ (
        AllBelow (length s.metrics_series) s.metrics_counter_delta
        × AllBelow (length s.metrics_series) s.gauges_updates)
unfolding flush_delta
succeeds_iff s = (
  λ worked. elim (Option-cases (resolve s.metrics_series s.metrics_counter_delta)) [
    | inl failed ↦ absurd (worked (rw failed refl))
    | inr (counters, e) ↦ elim (Option-cases (resolve s.metrics_series s.gauges_updates)) [
      | inl failed ↦ absurd (worked (rw (e, failed) refl))
      | inr (gauges, f) ↦ (
        resolve-AllBelow s.metrics_series s.metrics_counter_delta counters e,
        resolve-AllBelow s.metrics_series s.gauges_updates gauges f,
      )
    ]
  ],
  λ below.
      let (counters, e) = resolve-some s.metrics_series s.metrics_counter_delta below.0 in
      let (gauges, f) = resolve-some s.metrics_series s.gauges_updates below.1 in
      rw (e, f) (λ h. cc),
)

flush-cases :
    (s : FunctionMetricsState)
    → (flush_delta s ≡ none)
      ⊎ ((d : FunctionMetricsDelta) × (flush_delta s
            ≡ some (record s { metrics_counter_delta = []; gauges_updates = [] }, d)))
unfolding flush_delta
flush-cases s = elim (Option-cases (resolve s.metrics_series s.metrics_counter_delta)) [
  | inl failed ↦ inl (rw failed refl)
  | inr (counters, e) ↦ elim (Option-cases (resolve s.metrics_series s.gauges_updates)) [
    | inl failed ↦ inl (rw (e, failed) refl)
    | inr (gauges, f) ↦ inr (
      record { counters_delta = extend [] counters; gauges_updates = extend [] gauges },
      rw (e, f) refl,
    )
  ]
]

-- A flush does not panic exactly when every counter and gauge that was touched since the last flush
-- carries the id of a registered series; and either it panics, or it leaves the same series with
-- nothing pending.
pub flush_total_iff :
    (s : FunctionMetricsState)
    → ((flush_delta s ≢ none) ↔ (
        AllBelow (length s.metrics_series) s.metrics_counter_delta
        × AllBelow (length s.metrics_series) s.gauges_updates))
      × ((flush_delta s ≡ none)
          ⊎ ((d : FunctionMetricsDelta) × (flush_delta s
                ≡ some (record s { metrics_counter_delta = []; gauges_updates = [] }, d))))
flush_total_iff s = (succeeds_iff s, flush-cases s)

module _ (s : FunctionMetricsState) (indexed : IsIndexed s) where
  -- The pairs of a resolved map hold under a key what the map holds under its id.
  lookup-resolve {ℓ} :
      {V : Type ℓ} (m : Dict ℕ V) (pairs : List (MetricKey × V)) (id : ℕ) (key : MetricKey)
      → resolve s.metrics_series m ≡ some pairs
      → get_elem? s.metrics_series id ≡ some key
      → lookup key pairs ≡ lookup id m
  unfolding resolve lookup
  lookup-resolve [] pairs id key e has = ground arith
  lookup-resolve ((i, v) ∷ rest) pairs id key e has =
      elim (Option-cases (get_elem? s.metrics_series i)) [
        | inl missing ↦ ground arith
        | inr (k, named) ↦ elim (Option-cases (resolve s.metrics_series rest)) [
          | inl failed ↦ ground arith
          | inr (more, worked) ↦
              let ih = lookup-resolve rest more id key worked has in
              ground (
                arith,
                ==_iff k key,
                ==_iff i id,
                indexed.complete i k named,
                indexed.complete id key has,
              )
        ]
      ]

  resolve-IsUnique {ℓ} :
      {V : Type ℓ} (m : Dict ℕ V) (pairs : List (MetricKey × V))
      → resolve s.metrics_series m ≡ some pairs
      → IsUnique m
      → IsUnique pairs
  unfolding resolve lookup
  resolve-IsUnique [] pairs e u = subst IsUnique {x = []} (ground arith) tt
  resolve-IsUnique ((i, v) ∷ rest) pairs e u = elim (Option-cases (get_elem? s.metrics_series i)) [
    | inl missing ↦ absurd (ground arith)
    | inr (k, named) ↦ elim (Option-cases (resolve s.metrics_series rest)) [
      | inl failed ↦ absurd (ground arith)
      | inr (more, worked) ↦
          subst IsUnique {x = (k, v) ∷ more} (ground arith)
            (lookup-resolve rest more i k worked named ∙ u.0, resolve-IsUnique rest more worked u.1)
    ]
  ]

-- A flush that succeeds hands over, under the key of every registered series, exactly the count and
-- the gauge value pending under its id, and leaves the same series with nothing pending.
pub flush_exact :
    (s : FunctionMetricsState) (indexed : IsIndexed s)
    → IsUnique s.metrics_counter_delta
    → IsUnique s.gauges_updates
    → (id : ℕ) (key : MetricKey) → get_elem? s.metrics_series id ≡ some key
    → {after : FunctionMetricsState} {d : FunctionMetricsDelta} → flush_delta s ≡ some (after, d)
    → (lookup key d.counters_delta ≡ lookup id s.metrics_counter_delta)
      × (lookup key d.gauges_updates ≡ lookup id s.gauges_updates)
      × (after ≡ record s { metrics_counter_delta = []; gauges_updates = [] })
unfolding flush_delta lookup
flush_exact s indexed u w id key has {after} {d} e =
    elim (Option-cases (resolve s.metrics_series s.metrics_counter_delta)) [
      | inl failed ↦ absurd (ground arith)
      | inr (counters, cs) ↦ elim (Option-cases (resolve s.metrics_series s.gauges_updates)) [
        | inl failed ↦ absurd (ground arith)
        | inr (gauges, gs) ↦
            let cu = resolve-IsUnique s indexed s.metrics_counter_delta counters cs u in
            let gu = resolve-IsUnique s indexed s.gauges_updates gauges gs w in
            let same_c = lookup-resolve s indexed s.metrics_counter_delta counters id key cs has in
            let same_g = lookup-resolve s indexed s.gauges_updates gauges id key gs has in
            (
              ground (arith, same_c, lookup-extend key [] counters cu),
              ground (arith, same_g, lookup-extend key [] gauges gu),
              ground arith,
            )
      ]
    ]

pub flush-IsUnique :
    (s : FunctionMetricsState) {after : FunctionMetricsState} {d : FunctionMetricsDelta}
    → flush_delta s ≡ some (after, d)
    → IsUnique d.counters_delta
unfolding flush_delta
flush-IsUnique s {after} {d} e =
    elim (Option-cases (resolve s.metrics_series s.metrics_counter_delta)) [
      | inl failed ↦ absurd (ground arith)
      | inr (counters, cs) ↦ elim (Option-cases (resolve s.metrics_series s.gauges_updates)) [
        | inl failed ↦ absurd (ground arith)
        | inr (gauges, gs) ↦
            subst IsUnique {x = extend [] counters} (ground arith) (extend-IsUnique [] counters tt)
      ]
    ]

-- What a flush leaves behind.
pub flush_leaves :
    (s : FunctionMetricsState) {after : FunctionMetricsState} {d : FunctionMetricsDelta}
    → flush_delta s ≡ some (after, d)
    → after ≡ record s { metrics_counter_delta = []; gauges_updates = [] }
unfolding flush_delta
flush_leaves s e = elim (Option-cases (resolve s.metrics_series s.metrics_counter_delta)) [
  | inl failed ↦ absurd (ground arith)
  | inr (counters, cs) ↦ elim (Option-cases (resolve s.metrics_series s.gauges_updates)) [
    | inl failed ↦ absurd (ground arith)
    | inr (gauges, gs) ↦ ground arith
  ]
]
