-- ===== src/Worker/Routing.antt =====
-- The tables of a worker agree with one another: what is routed to can be run.
use native.Mathlib.Omega.{arith}
use fx.Prelude.{
  nat_eq, string_eq, ℕ, true, ◌≡◌, refl, Option, none, some, List, [], ◌∷◌, String, Result, ok, err,
  ◌==◌, ==_iff, if◌then◌else◌, any, is_some, map, filter_map, and_then, or_else, Option-cases, inl,
  inr,
}
use fx.Prelude.Dict.{
  lookup, remove, retain_values, IsUnique, lookup-insert, lookup-remove, lookup-extend_const,
  lookup-retain, retain-IsUnique, extend-IsUnique,
}
use fx.Worker.{
  WorkerWorld, FunctionDeployMessage, FunctionHttpListener, WorkerMessage, remove_function,
  function_deploy, function_invoke, DeploymentInitError, deployed, named_hosts, install,
  handle_remove, find_deployment, worker_handle_message, run, new_world, drop_deployment,
  other_than, is_for,
}

-- The lower-case host names that a deployment listens on.
abbrev pub hosts_of : (String → String) → List FunctionHttpListener → List String
hosts_of lower listeners = map lower (filter_map (λ l. l.host) listeners)

module _ {D : Type 0} where
  pub record IsConsistent (w : WorkerWorld D) : Type 0 where
    pub live :
        (f : String) (id : ℕ)
        → lookup f w.functions ≡ some id
        → is_some (lookup id w.function_deployments) ≡ true
    pub distinct :
        (f g : String) (id : ℕ)
        → lookup f w.functions ≡ some id
        → lookup g w.functions ≡ some id
        → f ≡ g
    pub hosts_known :
        (h f : String) → lookup h w.http_hosts ≡ some f → is_some (lookup f w.functions) ≡ true
    pub default_known :
        (f : String) → w.http_default ≡ some f → is_some (lookup f w.functions) ≡ true
    pub hosts_unique : IsUnique w.http_hosts

  pub new_world-IsConsistent : IsConsistent (new_world {D = D})
  unfolding new_world lookup
  new_world-IsConsistent = record {
    live = λ f id h. cc;
    distinct = λ f g id h k. cc;
    hosts_known = λ h f e. cc;
    default_known = λ f e. cc;
    hosts_unique = tt;
  }

  -- After a deployment a host leads to the function if the function listens on it; otherwise it
  -- leads where it did, unless that was the function.
  pub hosts-install :
      (lower : String → String) (w : WorkerWorld D) (m : FunctionDeployMessage D) (d : D)
      (host : String)
      → lookup host (install lower w m d).http_hosts ≡ (
          if any (λ h. h == host) (hosts_of lower m.http_listeners)
          then some m.function_id
          else lookup host (retain_values (other_than m.function_id) w.http_hosts))
  unfolding install
  hosts-install lower w m d host =
      lookup-extend_const host (retain_values (other_than m.function_id) w.http_hosts) m.function_id
        (hosts_of lower m.http_listeners)

  module _ (lower : String → String) (w : WorkerWorld D) (c : IsConsistent w) where
    install-IsConsistent :
        (m : FunctionDeployMessage D) (d : D)
        → lookup m.deployment_id w.function_deployments ≡ none
        → IsConsistent (install lower w m d)
    unfolding install
    install-IsConsistent m d fresh = record {
      live = λ f id h. ground (
        arith,
        ==_iff m.function_id f,
        ==_iff m.deployment_id id,
        lookup-insert m.function_id f m.deployment_id w.functions,
        lookup-insert m.deployment_id id d w.function_deployments,
        c.live f id,
      );
      distinct = λ f g id h k. ground (
        arith,
        ==_iff m.function_id f,
        ==_iff m.function_id g,
        lookup-insert m.function_id f m.deployment_id w.functions,
        lookup-insert m.function_id g m.deployment_id w.functions,
        c.live f id,
        c.live g id,
        c.distinct f g id,
      );
      hosts_known = λ h f e. ground (
        arith,
        ==_iff m.function_id f,
        lookup-insert m.function_id f m.deployment_id w.functions,
        hosts-install lower w m d h,
        lookup-retain (other_than m.function_id) h w.http_hosts c.hosts_unique,
        c.hosts_known h f,
      );
      default_known = λ f e. ground (
        arith,
        ==_iff m.function_id f,
        lookup-insert m.function_id f m.deployment_id w.functions,
        c.default_known f,
      );
      hosts_unique =
          extend-IsUnique _ (named_hosts lower m.function_id m.http_listeners)
            (retain-IsUnique (other_than m.function_id) w.http_hosts c.hosts_unique);
    }

    remove_found-IsConsistent :
        (f : String) (o : Option ℕ)
        → lookup f w.functions ≡ o
        → IsConsistent (record w {
          function_deployments = drop_deployment o w.function_deployments;
          functions = remove f w.functions;
          http_hosts = retain_values (other_than f) w.http_hosts;
          http_default = if is_for f w.http_default then none else w.http_default;
        })
    remove_found-IsConsistent f none e = record {
      live = λ g id h. ground (arith, lookup-remove f g w.functions, c.live g id);
      distinct = λ g g' id h k. ground (
        arith,
        lookup-remove f g w.functions,
        lookup-remove f g' w.functions,
        c.distinct g g' id,
      );
      hosts_known = λ h g k. ground (
        arith,
        ==_iff f g,
        ==_iff g f,
        lookup-remove f g w.functions,
        lookup-retain (other_than f) h w.http_hosts c.hosts_unique,
        c.hosts_known h g,
      );
      default_known = λ g k.
          ground (arith, ==_iff f g, ==_iff g f, lookup-remove f g w.functions, c.default_known g);
      hosts_unique = retain-IsUnique (other_than f) w.http_hosts c.hosts_unique;
    }
    remove_found-IsConsistent f (some gone) e = record {
      live = λ g id h. ground (
        arith,
        ==_iff f g,
        ==_iff gone id,
        lookup-remove f g w.functions,
        lookup-remove gone id w.function_deployments,
        c.live g id,
        c.distinct f g id,
      );
      distinct = λ g g' id h k. ground (
        arith,
        lookup-remove f g w.functions,
        lookup-remove f g' w.functions,
        c.distinct g g' id,
      );
      hosts_known = λ h g k. ground (
        arith,
        ==_iff f g,
        ==_iff g f,
        lookup-remove f g w.functions,
        lookup-retain (other_than f) h w.http_hosts c.hosts_unique,
        c.hosts_known h g,
      );
      default_known = λ g k.
          ground (arith, ==_iff f g, ==_iff g f, lookup-remove f g w.functions, c.default_known g);
      hosts_unique = retain-IsUnique (other_than f) w.http_hosts c.hosts_unique;
    }

    pub remove-IsConsistent : (f : String) → IsConsistent (handle_remove w f)
    unfolding handle_remove
    remove-IsConsistent f = remove_found-IsConsistent f (lookup f w.functions) refl

  -- A deployment comes with an id that no deployment of the worker has.
  abbrev pub IsFresh : WorkerWorld D → WorkerMessage D → Type 0
  IsFresh w (function_deploy m) = lookup m.deployment_id w.function_deployments ≡ none
  IsFresh w (remove_function f on_ready) = Unit
  IsFresh w (function_invoke f) = Unit

  abbrev pub AllFresh : (String → String) → WorkerWorld D → List (WorkerMessage D) → Type 0
  AllFresh lower w [] = Unit
  AllFresh lower w (m ∷ ms) = IsFresh w m × AllFresh lower (worker_handle_message lower w m).0 ms

  module _ (lower : String → String) where
    deployed-IsConsistent :
        (w : WorkerWorld D) (m : FunctionDeployMessage D) (r : Result D DeploymentInitError)
        → IsConsistent w
        → IsFresh w (function_deploy m)
        → IsConsistent (deployed lower w m r).0
    unfolding deployed
    deployed-IsConsistent w m (ok d) c fresh = install-IsConsistent lower w c m d fresh
    deployed-IsConsistent w m (err e) c fresh = c

    step-IsConsistent :
        (w : WorkerWorld D) (m : WorkerMessage D)
        → IsConsistent w
        → IsFresh w m
        → IsConsistent (worker_handle_message lower w m).0
    unfolding worker_handle_message
    step-IsConsistent w (function_deploy m) c fresh = deployed-IsConsistent w m m.deployment c fresh
    step-IsConsistent w (remove_function f on_ready) c fresh = remove-IsConsistent lower w c f
    step-IsConsistent w (function_invoke f) c fresh = c

    pub run-IsConsistent :
        (w : WorkerWorld D) (ms : List (WorkerMessage D))
        → IsConsistent w
        → AllFresh lower w ms
        → IsConsistent (run lower w ms)
    unfolding run
    run-IsConsistent w [] c fresh = c
    run-IsConsistent w (m ∷ ms) c fresh =
        run-IsConsistent (worker_handle_message lower w m).0 ms (step-IsConsistent w m c fresh.0)
          fresh.1

  -- The function that a request for a host is routed to: the one that listens on the host, or else
  -- the default one.
  abbrev pub route : (String → String) → WorkerWorld D → Option String → Option String
  route lower w host = or_else (and_then host (λ h. lookup (lower h) w.http_hosts)) w.http_default

  route_known :
      (lower : String → String) (w : WorkerWorld D) (host : Option String) (f : String)
      → IsConsistent w
      → route lower w host ≡ some f
      → is_some (lookup f w.functions) ≡ true
  route_known lower w none f c e = c.default_known f e
  route_known lower w (some h) f c e = ground (arith, c.hosts_known (lower h) f, c.default_known f)

  find_of_known :
      (w : WorkerWorld D) (f : String)
      → IsConsistent w
      → is_some (lookup f w.functions) ≡ true
      → is_some (find_deployment w f) ≡ true
  unfolding find_deployment
  find_of_known w f c known = elim (Option-cases (lookup f w.functions)) [
    | inl unknown ↦ ground arith
    | inr (id, has) ↦ ground (arith, c.live f id has)
  ]

  -- Whatever messages a worker has handled, if each deployment came with a fresh id, then a
  -- function that a request is routed to, by its host or by default, has a deployment to run.
  pub routed_can_run :
      (lower : String → String) (ms : List (WorkerMessage D)) (host : Option String) (f : String)
      → AllFresh lower new_world ms
      → route lower (run lower new_world ms) host ≡ some f
      → is_some (find_deployment (run lower new_world ms) f) ≡ true
  routed_can_run lower ms host f fresh e =
      let w = run lower new_world ms in
      let c = run-IsConsistent lower new_world ms new_world-IsConsistent fresh in
      find_of_known w f c (route_known lower w host f c e)
