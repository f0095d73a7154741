-- ===== src/Prelude/Dict.antt =====
-- The standard library's `HashMap`, as an association list: `get`, `insert`, `remove`, `retain`,
-- the entry API's update, and iteration. The order in which a `HashMap` is iterated is
-- unspecified; the list fixes one, and no theorem depends on it.
use mathlib.Core.Path.{◌≡◌, refl}
use mathlib.Core.Bool.{Bool}
use mathlib.Core.Option.{Option, none, some}
use mathlib.Core.List.{List, [], ◌∷◌, map}
use native.Mathlib.Omega.{arith}
use fx.Prelude.Tests.{keep_if, or_else, if◌then◌else◌}
use fx.Prelude.Lists.{any}
use fx.Prelude.Key.{Eq, ◌==◌}

abbrev pub Dict {ℓ κ} : Type ℓ → Type κ → Type (ℓ ⊔ κ)
Dict K V = List (K × V)

module _ {ℓ κ} {K : Type ℓ} {V : Type κ} ⦃e : Eq K⦄ where
  unfoldable pub lookup : K → Dict K V → Option V
  lookup k [] = none
  lookup k ((j, v) ∷ m) = if j == k then some v else lookup k m

  unfoldable pub insert : K → V → Dict K V → Dict K V
  insert k v [] = (k, v) ∷ []
  insert k v ((i, old) ∷ rest) = if i == k then (k, v) ∷ rest else (i, old) ∷ insert k v rest

  unfoldable pub remove : K → Dict K V → Dict K V
  remove k [] = []
  remove k ((j, v) ∷ m) = let rest = remove k m in if j == k then rest else (j, v) ∷ rest

  unfoldable pub retain_values : (V → Bool) → Dict K V → Dict K V
  retain_values p [] = []
  retain_values p ((j, v) ∷ m) = let rest = retain_values p m in if p v then (j, v) ∷ rest else rest

  -- `extend`, and `collect` into a map when the target is empty: later pairs win.
  unfoldable pub extend : Dict K V → List (K × V) → Dict K V
  unfolding insert
  extend m [] = m
  extend m ((k, v) ∷ kvs) = extend (insert k v m) kvs

  -- No key stands twice.
  abbrev pub IsUnique : Dict K V → Type κ
  IsUnique [] = Unit
  IsUnique ((k, v) ∷ m) = (lookup k m ≡ none) × IsUnique m

  pub lookup-insert :
      (k j : K) (v : V) (m : Dict K V)
      → lookup j (insert k v m) ≡ (if k == j then some v else lookup j m)
  unfolding lookup insert
  lookup-insert k j v [] = refl
  lookup-insert k j v ((i, old) ∷ rest) =
      ground (arith, e.beq_iff k j, e.beq_iff i k, e.beq_iff i j, lookup-insert k j v rest)

  pub lookup-remove :
      (k j : K) (m : Dict K V) → lookup j (remove k m) ≡ (if k == j then none else lookup j m)
  unfolding lookup remove
  lookup-remove k j [] = ground arith
  lookup-remove k j ((i, w) ∷ m) =
      ground (arith, e.beq_iff k j, e.beq_iff i k, e.beq_iff i j, lookup-remove k j m)

  pub lookup-insert_self : (k : K) (v : V) (m : Dict K V) → lookup k (insert k v m) ≡ some v
  lookup-insert_self k v m = rw lookup-insert (ground (arith, e.beq_iff k k))

  pub lookup-retain_none :
      (p : V → Bool) (k : K) (m : Dict K V)
      → lookup k m ≡ none
      → lookup k (retain_values p m) ≡ none
  unfolding lookup retain_values
  lookup-retain_none p k [] h = h
  lookup-retain_none p k ((i, w) ∷ m) h = ground (arith, lookup-retain_none p k m)

  -- With unique keys `retain` acts on each key by itself.
  pub lookup-retain :
      (p : V → Bool) (k : K) (m : Dict K V)
      → IsUnique m
      → lookup k (retain_values p m) ≡ keep_if p (lookup k m)
  unfolding lookup retain_values
  lookup-retain p k [] u = refl
  lookup-retain p k ((i, w) ∷ m) u =
      ground (arith, u.0, e.beq_iff i k, lookup-retain p k m u.1, lookup-retain_none p k m)

  pub insert-IsUnique : (k : K) (v : V) (m : Dict K V) → IsUnique m → IsUnique (insert k v m)
  unfolding lookup insert
  insert-IsUnique k v [] u = (refl, tt)
  insert-IsUnique k v ((i, w) ∷ m) u =
      ground (arith, e.beq_iff i k, e.beq_iff k i, insert-IsUnique k v m u.1, lookup-insert k i v m)

  pub remove-IsUnique : (k : K) (m : Dict K V) → IsUnique m → IsUnique (remove k m)
  unfolding lookup remove
  remove-IsUnique k [] u = tt
  remove-IsUnique k ((i, w) ∷ m) u = ground (arith, remove-IsUnique k m u.1, lookup-remove k i m)

  pub retain-IsUnique : (p : V → Bool) (m : Dict K V) → IsUnique m → IsUnique (retain_values p m)
  unfolding lookup retain_values
  retain-IsUnique p [] u = tt
  retain-IsUnique p ((i, w) ∷ m) u =
      ground (arith, retain-IsUnique p m u.1, lookup-retain_none p i m u.0)

  pub extend-IsUnique : (m : Dict K V) (kvs : List (K × V)) → IsUnique m → IsUnique (extend m kvs)
  unfolding extend
  extend-IsUnique m [] u = u
  extend-IsUnique m ((k, v) ∷ kvs) u = extend-IsUnique (insert k v m) kvs (insert-IsUnique k v m u)

  -- Pairs with distinct keys replace what the map had.
  pub lookup-extend :
      (j : K) (m : Dict K V) (kvs : Dict K V)
      → IsUnique kvs
      → lookup j (extend m kvs) ≡ or_else (lookup j kvs) (lookup j m)
  unfolding lookup extend
  lookup-extend j m [] u = refl
  lookup-extend j m ((k, v) ∷ kvs) u =
      ground (arith, e.beq_iff k j, lookup-insert k j v m, lookup-extend j (insert k v m) kvs u.1)

module _ {ℓ κ} {K : Type ℓ} {V : Type κ} ⦃e : Eq K⦄ where
  -- Extending by one value under many keys.
  pub lookup-extend_const :
      (k : K) (m : Dict K V) (v : V) (ks : List K)
      → lookup k (extend m (map (λ j. (j, v)) ks))
        ≡ (if any (λ j. j == k) ks then some v else lookup k m)
  unfolding extend
  lookup-extend_const k m v [] = refl
  lookup-extend_const k m v (j ∷ ks) =
      ground
        (arith, e.beq_iff j k, lookup-insert j k v m, lookup-extend_const k (insert j v m) v ks)
