-- ===== src/Worker.antt =====
-- A worker thread, fx-runtime/src/tasks/worker/task.rs: its tables of functions, deployments and
-- hosts, and its messages.
-- A deployed `Rc<FunctionDeployment>` is a value of a type `D`. The outcome of
-- `FunctionDeployment::new` is part of the deploy message, `lower` is `str::to_lowercase`, and a
-- function's id is its text.
pub mod Routing
pub mod Removal
pub mod Http
mod Tests
use fx.Prelude.{
  nat_eq, string_eq, ℕ, Bool, true, false, not, Option, none, some, List, [], ◌∷◌, String, Result,
  ok, err, ◌==◌, if◌then◌else◌, any, is_none, map, and_then, filter_map,
}
use fx.Prelude.Dict.{Dict, lookup, insert, remove, retain_values, extend}

pub data DeploymentInitError : Type 0 where
  missing_import : (requested_import_name : String) → DeploymentInitError
  incompatible_import : (details : String) → DeploymentInitError
  missing_export missing_memory unknown_instantiation_error assertion_error : DeploymentInitError

-- `FunctionInvokeError` of messages.rs.
pub data FunctionInvokeError : Type 0 where
  not_found function_panicked function_crashed function_busy : FunctionInvokeError
  function_incorrect_response internal_runtime_assertion_error : FunctionInvokeError
  internal_runtime_timeout_error function_instantiation_error : FunctionInvokeError

pub record FunctionHttpListener : Type 0 where
  pub host : Option String

pub record WorkerWorld (D : Type 0) : Type 0 where
  pub function_deployments : Dict ℕ D
  pub functions : Dict String ℕ
  pub http_hosts : Dict String String
  pub http_default : Option String

-- `deployment` is what `FunctionDeployment::new` comes to for the message's module, limits,
-- environment and bindings.
pub record FunctionDeployMessage (D : Type 0) : Type 0 where
  pub function_id : String
  pub deployment_id : ℕ
  pub deployment : Result D DeploymentInitError
  pub http_listeners : List FunctionHttpListener

-- `on_ready` of a removal is whether somebody waits for the answer.
pub data WorkerMessage (D : Type 0) : Type 0 where
  remove_function : String → (on_ready : Bool) → WorkerMessage D
  function_deploy : FunctionDeployMessage D → WorkerMessage D
  function_invoke : String → WorkerMessage D

-- What a message makes the worker do besides changing its tables: `starts` is a request that is
-- handed to a deployment in a task of its own.
pub data Action (D : Type 0) : Type 0 where
  nothing : Action D
  warns : DeploymentInitError → Action D
  tells_ready : Action D
  answers : FunctionInvokeError → Action D
  starts : D → Action D

-- The named hosts of the listeners, with the function that they lead to.
unfoldable pub named_hosts :
    (String → String) → String → List FunctionHttpListener → List (String × String)
named_hosts lower function_id listeners =
    map (λ h. (h, function_id)) (map lower (filter_map (λ l. l.host) listeners))

abbrev other_than : String → String → Bool
other_than f g = not (g == f)

abbrev pub is_for : String → Option String → Bool
is_for f none = false
is_for f (some g) = g == f

module _ {D : Type 0} where
  unfoldable pub new_world : WorkerWorld D
  new_world = record {
    function_deployments = [];
    functions = [];
    http_hosts = [];
    http_default = none;
  }

  module _ (lower : String → String) where
    unfoldable pub install : WorkerWorld D → FunctionDeployMessage D → D → WorkerWorld D
    unfolding named_hosts
    install w m deployment = record {
      function_deployments = insert m.deployment_id deployment w.function_deployments;
      functions = insert m.function_id m.deployment_id w.functions;
      http_hosts =
          extend (retain_values (other_than m.function_id) w.http_hosts)
            (named_hosts lower m.function_id m.http_listeners);
      http_default =
          if any (λ l. is_none l.host) m.http_listeners then some m.function_id else w.http_default;
    }

    unfoldable pub deployed :
        WorkerWorld D
        → FunctionDeployMessage D
        → Result D DeploymentInitError
        → WorkerWorld D × Action D
    unfolding install
    deployed w m (ok deployment) = (install w m deployment, nothing)
    deployed w m (err e) = (w, warns e)

    unfoldable pub handle_deploy :
        WorkerWorld D → FunctionDeployMessage D → WorkerWorld D × Action D
    unfolding deployed
    handle_deploy w m = deployed w m m.deployment

  abbrev drop_deployment : Option ℕ → Dict ℕ D → Dict ℕ D
  drop_deployment none m = m
  drop_deployment (some id) m = remove id m

  unfoldable pub handle_remove : WorkerWorld D → String → WorkerWorld D
  handle_remove w f = record {
    http_hosts = retain_values (other_than f) w.http_hosts;
    http_default = if is_for f w.http_default then none else w.http_default;
    functions = remove f w.functions;
    function_deployments = drop_deployment (lookup f w.functions) w.function_deployments;
  }

  -- The two lookups of an invocation; the local queue's handler makes the same ones.
  unfoldable pub find_deployment : WorkerWorld D → String → Option D
  find_deployment w f = and_then (lookup f w.functions) (λ id. lookup id w.function_deployments)

  abbrev started : Option D → Action D
  started none = answers not_found
  started (some d) = starts d

  unfoldable pub handle_invoke : WorkerWorld D → String → Action D
  unfolding find_deployment
  handle_invoke w f = started (find_deployment w f)

  module _ (lower : String → String) where
    unfoldable pub worker_handle_message :
        WorkerWorld D → WorkerMessage D → WorkerWorld D × Action D
    unfolding handle_deploy handle_remove handle_invoke
    worker_handle_message w (function_deploy m) = handle_deploy lower w m
    worker_handle_message w (remove_function f on_ready) =
        (handle_remove w f, if on_ready then tells_ready else nothing)
    worker_handle_message w (function_invoke f) = (w, handle_invoke w f)

    -- The tables after a sequence of messages.
    unfoldable pub run : WorkerWorld D → List (WorkerMessage D) → WorkerWorld D
    run w [] = w
    run w (m ∷ ms) = run (worker_handle_message w m).0 ms
