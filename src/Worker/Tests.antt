-- ===== src/Worker/Tests.antt =====
-- The worker's theorems at concrete tables and requests.
use text.Mathlib.Text.{starts_with}
use fx.Prelude.{
  ◌↔◌, string_eq, nat_eq, ℕ, Bool, true, false, Option, none, some, List, [], ◌∷◌, String, Result,
  ok, err, ◌≡◌, ◌≢◌, refl, is_some, any, is_none, if◌then◌else◌, and_then, arith,
}
use fx.Prelude.Dict.{lookup}
use fx.Worker.{
  WorkerWorld, FunctionDeployMessage, WorkerMessage, function_deploy, remove_function, new_world,
  run, install, handle_remove, find_deployment, worker_handle_message,
}
use fx.Worker.Routing.{
  IsConsistent, AllFresh, route, routed_can_run, run-IsConsistent, new_world-IsConsistent,
}
use fx.Worker.Removal.{removed_unreachable, deployed_reachable}
use fx.Worker.Http.{HttpRequest, Outcome, finished, Platform, call}
use fx.Worker.Http.Answers.{IsAddressed, runs-IsAddressed}

-- Host names are lower case already.
abbrev lower : String → String
lower h = h

abbrev deploy_a : FunctionDeployMessage ℕ
deploy_a = record {
  function_id = "a";
  deployment_id = 0;
  deployment = ok 100;
  http_listeners = record { host = some "a.org" } ∷ record { host = none } ∷ [];
}

abbrev redeploy_a : FunctionDeployMessage ℕ
redeploy_a = record deploy_a {
  deployment_id = 1;
  http_listeners = record { host = some "b.org" } ∷ [];
}

abbrev messages : List (WorkerMessage ℕ)
messages = function_deploy deploy_a ∷ remove_function "b" false ∷ function_deploy redeploy_a ∷ []

messages-AllFresh : AllFresh lower new_world messages
unfolding lookup run worker_handle_message fx.Prelude.Dict.extend fx.Prelude.Dict.retain_values
    fx.Prelude.Dict.insert new_world
messages-AllFresh = (refl, (tt, (refl, tt)))

routed_can_run_example : is_some (find_deployment (run lower new_world messages) "a") ≡ true
unfolding lookup run worker_handle_message fx.Prelude.Dict.extend fx.Prelude.Dict.retain_values
    new_world
routed_can_run_example = routed_can_run lower messages (some "b.org") "a" messages-AllFresh refl

abbrev serving : WorkerWorld ℕ
serving = record {
  function_deployments = (0, 100) ∷ [];
  functions = ("a", 0) ∷ [];
  http_hosts = ("a.org", "a") ∷ [];
  http_default = some "a";
}

serving-IsConsistent : IsConsistent serving
unfolding lookup run worker_handle_message fx.Prelude.Dict.extend fx.Prelude.Dict.retain_values
    fx.Prelude.Dict.insert new_world
serving-IsConsistent =
    let c =
      run-IsConsistent lower new_world (function_deploy deploy_a ∷ []) new_world-IsConsistent
        (refl, tt) in
    record {
      live = c.live;
      distinct = c.distinct;
      hosts_known = c.hosts_known;
      default_known = c.default_known;
      hosts_unique = c.hosts_unique;
    }

removed_unreachable_example :
    (route lower (handle_remove serving "a") (some "a.org") ≢ some "a")
    × (lookup "a.org" (handle_remove serving "a").http_hosts ≡ none)
    × (find_deployment (handle_remove serving "a") "a" ≡ none)
unfolding lookup
removed_unreachable_example =
    removed_unreachable lower serving serving-IsConsistent "a" "a" "a.org" (some "a.org")

deployed_reachable_example :
    (find_deployment (install lower serving redeploy_a 200) "a" ≡ some 200)
    × (lookup "b.org" (install lower serving redeploy_a 200).http_hosts ≡ some "a")
unfolding lookup
deployed_reachable_example =
    deployed_reachable lower serving serving-IsConsistent redeploy_a 200 "a" "b.org" refl

abbrev platform : Platform String
platform = record { text = λ s. s; lower = lower; parses = λ s. true; new_id = "fresh" }

abbrev request : HttpRequest
request = record { host = some (some "a.org"); request_id = none; path = "/" }

abbrev answers : ℕ → Outcome String
answers d = finished (ok (record { status = 200; body = "hello"; request_id = none }))

runs-IsAddressed_example :
    ((call platform serving answers request).ran ≡ some 100)
    ↔ ((starts_with request.path "/_fx/" ≡ false) × IsAddressed platform serving request.host 100)
runs-IsAddressed_example = runs-IsAddressed platform serving answers request 100
