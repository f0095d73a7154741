-- ===== src/Worker/Removal.antt =====
-- What deploying and removing a function does to the routes of a worker.
use native.Mathlib.Omega.{arith}
use fx.Prelude.{
  Eq, nat_eq, string_eq, ℕ, Bool, false, ◌≡◌, ◌≢◌, refl, Option, none, some, [], ◌∷◌, String, ◌==◌,
  ==_iff, if◌then◌else◌, any, is_none, and_then, keep_if, Bool-cases, Option-cases, inl, inr,
}
use fx.Prelude.Dict.{
  Dict, lookup, remove, retain_values, lookup-insert, lookup-remove, lookup-retain,
}
use fx.Worker.{
  WorkerWorld, FunctionDeployMessage, install, handle_remove, find_deployment, drop_deployment,
  other_than,
}
use fx.Worker.Routing.{hosts_of, route, IsConsistent, hosts-install}

retain_again {ℓ κ} :
    {K : Type ℓ} {V : Type κ} ⦃e : Eq K⦄ (p : V → Bool) (m : Dict K V)
    → retain_values p (retain_values p m) ≡ retain_values p m
unfolding retain_values
retain_again p [] = refl
retain_again p ((k, v) ∷ m) = ground (arith, retain_again p m)

remove_again {ℓ κ} :
    {K : Type ℓ} {V : Type κ} ⦃e : Eq K⦄ (k : K) (m : Dict K V) → remove k (remove k m) ≡ remove k m
unfolding remove
remove_again k [] = refl
remove_again k ((j, v) ∷ m) = ground (arith, remove_again k m)

module _ {D : Type 0} where
  -- Removing a function is idempotent: a second removal of it changes none of the worker's tables.
  pub remove_idempotent :
      (w : WorkerWorld D) (f : String) → handle_remove (handle_remove w f) f ≡ handle_remove w f
  unfolding handle_remove
  remove_idempotent w f = ground (
    arith,
    ==_iff f f,
    lookup-remove f f w.functions,
    remove_again f w.functions,
    retain_again (other_than f) w.http_hosts,
  )

  module _ (lower : String → String) (w : WorkerWorld D) (c : IsConsistent w) where
    unrouted : (f : String) (host : Option String) → route lower (handle_remove w f) host ≢ some f
    unfolding handle_remove
    unrouted f none e = ground (arith, ==_iff f f)
    unrouted f (some h) e =
        ground
          (arith, ==_iff f f, lookup-retain (other_than f) (lower h) w.http_hosts c.hosts_unique)

    found_without :
        (f g : String) (o : Option ℕ)
        → lookup f w.functions ≡ o
        → f ≢ g
        → and_then
            (lookup g w.functions)
            (λ id. lookup id (drop_deployment o w.function_deployments))
          ≡ and_then (lookup g w.functions) (λ id. lookup id w.function_deployments)
    found_without f g none e ne = refl
    found_without f g (some gone) e ne = elim (Option-cases (lookup g w.functions)) [
      | inl unknown ↦ ground arith
      | inr (id, has) ↦
          ground
            (arith, ==_iff gone id, lookup-remove gone id w.function_deployments, c.distinct f g id)
    ]

    found_after :
        (f g : String)
        → find_deployment (handle_remove w f) g ≡ (if f == g then none else find_deployment w g)
    unfolding handle_remove find_deployment
    found_after f g = elim (Bool-cases (f == g)) [
      | inl same ↦ ground (arith, lookup-remove f g w.functions)
      | inr other ↦ ground (
        arith,
        ==_iff f g,
        lookup-remove f g w.functions,
        found_without f g (lookup f w.functions) refl,
      )
    ]

    -- In consistent tables, after the removal of a function no request is routed to it, by its host
    -- or by default; a host that led to another function leads there still, and one that led to the
    -- removed function leads nowhere; an invocation finds what it found, except that it does not
    -- find the removed function.
    pub removed_unreachable :
        (f g h : String) (host : Option String)
        → (route lower (handle_remove w f) host ≢ some f)
          × (lookup h (handle_remove w f).http_hosts
              ≡ keep_if (other_than f) (lookup h w.http_hosts))
          × (find_deployment (handle_remove w f) g ≡ (if f == g then none else find_deployment w g))
    unfolding handle_remove
    removed_unreachable f g h host = (
      unrouted f host,
      lookup-retain (other_than f) h w.http_hosts c.hosts_unique,
      found_after f g,
    )

    -- In consistent tables, a deployment of `m` under a fresh id makes its function run the new
    -- deployment and leaves every other function with its own; a host leads to `m`'s function if
    -- `m` listens on it, and otherwise where it led, unless that was `m`'s function.
    pub deployed_reachable :
        (m : FunctionDeployMessage D) (d : D) (g h : String)
        → lookup m.deployment_id w.function_deployments ≡ none
        → (find_deployment (install lower w m d) g
            ≡ (if m.function_id == g then some d else find_deployment w g))
          × (lookup h (install lower w m d).http_hosts ≡ (
              if any (λ j. j == h) (hosts_of lower m.http_listeners)
              then some m.function_id
              else keep_if (other_than m.function_id) (lookup h w.http_hosts)))
    unfolding install find_deployment
    deployed_reachable m d g h fresh = (
      elim (Option-cases (lookup g w.functions)) [
        | inl unknown ↦ ground (
          arith,
          lookup-insert m.function_id g m.deployment_id w.functions,
          lookup-insert m.deployment_id m.deployment_id d w.function_deployments,
          ==_iff m.deployment_id m.deployment_id,
        )
        | inr (id, has) ↦ ground (
          arith,
          lookup-insert m.function_id g m.deployment_id w.functions,
          lookup-insert m.deployment_id m.deployment_id d w.function_deployments,
          lookup-insert m.deployment_id id d w.function_deployments,
          ==_iff m.deployment_id m.deployment_id,
          ==_iff m.deployment_id id,
          c.live g id has,
        )
      ],
      ground (
        arith,
        hosts-install lower w m d h,
        lookup-retain (other_than m.function_id) h w.http_hosts c.hosts_unique,
      ),
    )

  -- A function that has been the default one stays the default one when it is deployed again with
  -- named hosts only, although its old named hosts are forgotten by the same deployment.
  pub default_survives_redeploy :
      (lower : String → String) (w : WorkerWorld D) (m : FunctionDeployMessage D) (d : D)
      → w.http_default ≡ some m.function_id
      → any (λ l. is_none l.host) m.http_listeners ≡ false
      → route lower (install lower w m d) none ≡ some m.function_id
  unfolding install
  default_survives_redeploy lower w m d was named = ground arith
