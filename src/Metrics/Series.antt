-- ===== src/Metrics/Series.antt =====
-- The series of one function instance: ids and keys of fx-runtime/src/effects/metrics.rs stand for
-- one another.
use native.Mathlib.Omega.{arith}
use fx.Prelude.{
  nat_eq, list_eq, pair_eq, string_eq, ℕ, zero, suc, ◌≡◌, ◌↔◌, refl, Option, none, some, List, [],
  ◌∷◌, ◌++◌, ==_iff, length, get_elem?, get_elem?-append_left, get_elem?-append_end,
  get_elem?-eq_some_lt, inl, inr, Option-cases, ◌⊎◌,
}
use fx.Prelude.Dict.{lookup, lookup-insert}
use fx.Metrics.{
  MetricKey, metric_key_eq, FunctionMetricsState, new_state, register_found, counter_register,
}

-- The two tables of a state are inverse to one another.
pub record IsIndexed (s : FunctionMetricsState) : Type 0 where
  pub sound :
      (key : MetricKey) (id : ℕ)
      → lookup key s.metric_key_to_ids ≡ some id
      → get_elem? s.metrics_series id ≡ some key
  pub complete :
      (id : ℕ) (key : MetricKey)
      → get_elem? s.metrics_series id ≡ some key
      → lookup key s.metric_key_to_ids ≡ some id

pub new_state-IsIndexed : IsIndexed new_state
unfolding new_state lookup
new_state-IsIndexed = record { sound = λ key id h. cc; complete = λ id key h. cc }

get_elem?-append_cases {ℓ} :
    {A : Type ℓ} (xs : List A) (y : A) (i : ℕ) {a : A}
    → get_elem? (xs ++ y ∷ []) i ≡ some a
    → (get_elem? xs i ≡ some a) ⊎ ((i ≡ length xs) × (a ≡ y))
get_elem?-append_cases [] y zero h = ground arith
get_elem?-append_cases [] y (suc i) h = ground arith
get_elem?-append_cases (x ∷ xs) y zero h = inl h
get_elem?-append_cases (x ∷ xs) y (suc i) h = ground (arith, get_elem?-append_cases xs y i h)

module _ {s : FunctionMetricsState} (indexed : IsIndexed s) (key : MetricKey) where
  fresh-IsIndexed : lookup key s.metric_key_to_ids ≡ none → IsIndexed (register_found s key none).0
  unfolding register_found
  fresh-IsIndexed fresh = record {
    sound = λ k id h. ground (
      arith,
      ==_iff key k,
      lookup-insert key k (length s.metrics_series) s.metric_key_to_ids,
      indexed.sound k id,
      get_elem?-append_end s.metrics_series key,
      get_elem?-append_left s.metrics_series (key ∷ []) id,
      get_elem?-eq_some_lt s.metrics_series id {a = k},
    );
    complete = λ id k h. ground (
      arith,
      ==_iff key k,
      lookup-insert key k (length s.metrics_series) s.metric_key_to_ids,
      indexed.complete id k,
      get_elem?-append_cases s.metrics_series key id {a = k},
    );
  }

  register_found-IsIndexed :
      (o : Option ℕ) → lookup key s.metric_key_to_ids ≡ o → IsIndexed (register_found s key o).0
  unfolding register_found
  register_found-IsIndexed none e = fresh-IsIndexed e
  register_found-IsIndexed (some id) e = indexed

  pub counter_register-IsIndexed : IsIndexed (counter_register s key).0
  unfolding counter_register
  counter_register-IsIndexed = register_found-IsIndexed (lookup key s.metric_key_to_ids) refl

  register_found-key :
      (o : Option ℕ)
      → lookup key s.metric_key_to_ids ≡ o
      → get_elem? (register_found s key o).0.metrics_series (register_found s key o).1 ≡ some key
  unfolding register_found
  register_found-key none e = get_elem?-append_end s.metrics_series key
  register_found-key (some id) e = indexed.sound key id e

  -- The id that a registration answers is the id of its key.
  pub counter_register-key :
      let (after, id) = counter_register s key in get_elem? after.metrics_series id ≡ some key
  unfolding counter_register
  counter_register-key = register_found-key (lookup key s.metric_key_to_ids) refl

-- A registration never moves a series that is there.
pub counter_register-keeps :
    (s : FunctionMetricsState) (key : MetricKey) (id : ℕ) {k : MetricKey}
    → get_elem? s.metrics_series id ≡ some k
    → get_elem? (counter_register s key).0.metrics_series id ≡ some k
unfolding counter_register
counter_register-keeps s key id {k} h = elim (Option-cases (lookup key s.metric_key_to_ids)) [
  | inl fresh ↦ ground (
    arith,
    get_elem?-append_left s.metrics_series (key ∷ []) id,
    get_elem?-eq_some_lt s.metrics_series id h,
  )
  | inr (old, known) ↦ ground arith
]

counter_register-known :
    (s : FunctionMetricsState) (key : MetricKey) {id : ℕ}
    → lookup key s.metric_key_to_ids ≡ some id
    → counter_register s key ≡ (s, id)
unfolding counter_register
counter_register-known s key h = ground arith

-- Registrations one after the other.
unfoldable pub register_all : FunctionMetricsState → List MetricKey → FunctionMetricsState
register_all s [] = s
register_all s (key ∷ keys) = register_all (counter_register s key).0 keys

register_all-IsIndexed :
    (s : FunctionMetricsState) (keys : List MetricKey)
    → IsIndexed s
    → IsIndexed (register_all s keys)
unfolding register_all
register_all-IsIndexed s [] h = h
register_all-IsIndexed s (key ∷ keys) h =
    register_all-IsIndexed (counter_register s key).0 keys (counter_register-IsIndexed h key)

register_all-keeps :
    (s : FunctionMetricsState) (keys : List MetricKey) (id : ℕ) {k : MetricKey}
    → get_elem? s.metrics_series id ≡ some k
    → get_elem? (register_all s keys).metrics_series id ≡ some k
unfolding register_all
register_all-keeps s [] id h = h
register_all-keeps s (key ∷ keys) id h =
    register_all-keeps (counter_register s key).0 keys id (counter_register-keeps s key id h)

-- In a state whose tables are inverse, a key that is registered again keeps its id and that
-- registration changes nothing, whatever keys were registered in between, and two keys get the same
-- id exactly when they are the same key, whatever keys were registered between the two.
pub counter_register_twice :
    (s : FunctionMetricsState) (key : MetricKey) (between : List MetricKey) (other : MetricKey)
    → IsIndexed s
    → let (s₁, id) = counter_register s key in
      let (s₂, id') = counter_register (register_all s₁ between) other in
      (counter_register s₂ key ≡ (s₂, id)) × ((id ≡ id') ↔ (key ≡ other))
counter_register_twice s key between other indexed =
    let (s₁, id) = counter_register s key in
    let s' = register_all s₁ between in
    let (s₂, id') = counter_register s' other in
    let indexed₁ = counter_register-IsIndexed indexed key in
    let indexed' = register_all-IsIndexed s₁ between indexed₁ in
    let indexed₂ = counter_register-IsIndexed indexed' other in
    let first = register_all-keeps s₁ between id (counter_register-key indexed key) in
    let here = counter_register-keeps s' other id first in
    let there = counter_register-key indexed' other in
    (
      counter_register-known s₂ key (indexed₂.complete id key here),
      (
        λ same. ground arith,
        λ same. ground (arith, indexed₂.complete id key here, indexed₂.complete id' other there),
      ),
    )
