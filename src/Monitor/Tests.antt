-- ===== src/Monitor/Tests.antt =====
-- The definitions monitor's theorems at a concrete environment, directory and configuration.
use fx.Prelude.{
  is_some, filter_map, string_eq, nat_eq, ℕ, Bool, true, false, Option, none, some, List, [], ◌∷◌,
  String, Result, ok, err, ◌≡◌, refl, ◌==◌, if◌then◌else◌,
}
use fx.Prelude.Dict.{Dict, lookup}
use fx.Kv.{Bytes}
use fx.Config.{file, FunctionConfig, listed, LimitsConfig}
use fx.Monitor.{Environment, Monitor, Message, deploy, schedule_add, DeployMessage, missing}
use fx.Monitor.Directory.{Entry, definition, not_a_file, reconcile}
use fx.Worker.{DeploymentInitError, find_deployment, run, new_world}
use fx.Monitor.Delivery.{to_worker, passes, reconciled_can_run}
use fx.Monitor.Growth.{IsGrowth}
use fx.Monitor.Total.{reconcile_total}
use fx.Monitor.Reconcile.{reconcile-IsGrowth, reconcile_settled}

-- A compiler that takes any code as its own module, and a directory without files.
abbrev environment : Environment Bytes String
environment = record {
  read = λ p. err missing;
  read_to_string = λ p. err missing;
  compile = λ code. some code;
  parse_schedule = λ s. some s;
  wasm_path = λ f. f;
  lower = λ s. s;
  uuid = λ n. "uuid";
  cron_runs = true;
  compiler_runs = true;
  workers_run = true;
}

abbrev config : FunctionConfig
config = record {
  config_path = some "a.fx.yaml";
  logger = none;
  limits = none;
  code = some (fx.Config.inline (1 ∷ []));
  env = none;
  triggers = none;
  bindings = none;
}

abbrev state : Monitor
state = record {
  runtime_state = record {
    functions = [];
    cron_tasks = [];
    cron_last_runs = [];
    cron_running = [];
  };
  deployment_id_counter = 4;
  deployed_state = [];
}

abbrev sent : DeployMessage Bytes
sent = record {
  function_id = "a";
  deployment_id = 4;
  module_ = 1 ∷ [];
  limit_memory_bytes = none;
  http_listeners = [];
  env = [];
  bindings_sql = [];
  bindings_blob = [];
  bindings_kv = [];
  bindings_functions = [];
}

abbrev after : Monitor
after = record {
  runtime_state = record {
    functions = "a" ∷ [];
    cron_tasks = [];
    cron_last_runs = [];
    cron_running = [];
  };
  deployment_id_counter = 5;
  deployed_state = ("a", config) ∷ [];
}

abbrev sent_messages : List (Message Bytes String)
sent_messages = deploy sent ∷ schedule_add "a" [] ∷ []

abbrev variables : Dict String String
variables = ("HOME", "/") ∷ []

abbrev directory : List Entry
directory = not_a_file ∷ definition "a" config ∷ []

reconcile-IsGrowth_example : IsGrowth state after sent_messages
unfolding reconcile fx.Management.set_cron_tasks fx.Prelude.Dict.insert fx.Prelude.Dict.extend
    fx.Management.add_function
reconcile-IsGrowth_example =
    reconcile-IsGrowth environment state directory (after, sent_messages) refl

reconcile_settled_example : reconcile environment after directory ≡ some (after, [])
unfolding lookup
reconcile_settled_example = reconcile_settled environment after directory (tt, (refl, tt))

abbrev serving_config : FunctionConfig
serving_config = record config {
  triggers = some (record { http = some (record { host = none } ∷ []); cron = none });
}

abbrev serving_messages : List (Message Bytes String)
serving_messages = deploy (record sent { http_listeners = none ∷ [] }) ∷ schedule_add "a" [] ∷ []

abbrev serving : Monitor × List (Message Bytes String)
serving = (record after { deployed_state = ("a", serving_config) ∷ [] }, serving_messages)

abbrev first_pass : List (Environment Bytes String × List Entry)
first_pass = (environment, definition "a" serving_config ∷ []) ∷ []

-- Every deployment can be made.
abbrev init : DeployMessage Bytes → Result ℕ DeploymentInitError
init d = ok d.deployment_id

reconciled_can_run_example :
    is_some (find_deployment (run (λ h. h) new_world (filter_map (to_worker init) serving.1)) "a")
    ≡ true
unfolding passes reconcile fx.Management.set_cron_tasks fx.Prelude.Dict.insert
    fx.Prelude.Dict.extend fx.Management.add_function run new_world fx.Worker.worker_handle_message
reconciled_can_run_example =
    reconciled_can_run init (λ h. h) state first_pass serving none "a" refl refl

abbrev ready_config : FunctionConfig
ready_config = record serving_config {
  env = some (record { id = "HOME"; source = file "home" } ∷ []);
}

reconcile_total_example :
    is_some (reconcile environment state (definition "a" ready_config ∷ [])) ≡ true
reconcile_total_example =
    reconcile_total environment refl refl state (definition "a" ready_config ∷ [])
      ((tt, ((λ h. cc), tt), tt), tt)
