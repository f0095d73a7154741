-- ===== src/Monitor.antt =====
-- The definitions monitor, fx-runtime/src/definitions/monitor.rs: applying one configuration, and
-- reconciling what is deployed with the functions directory.
-- The file system, the compiler, `uuid` and the schedule parser are the environment's. `none` is a
-- panic, as where the source unwraps. The messages sent are returned in order; a message to the
-- workers stands for one to each of them.
pub mod Bindings
pub mod Delivery
pub mod Directory
pub mod Growth
pub mod Reconcile
pub mod Total
mod Tests
use mathlib.Core.Option
use Prim.Native.String
use fx.Prelude.{
  string_eq, pair_eq, nat_eq, ℕ, ◌+◌, ◌*◌, Bool, true, false, not, Option, none, some, List, [],
  ◌∷◌, ◌++◌, String, Result, ok, err, Eq, ◌==◌, if◌then◌else◌, map, and_then, unwrap_or,
}
use fx.Prelude.Dict.{Dict, lookup, insert, extend}
use fx.Kv.{Bytes}
use fx.Management.{RuntimeState, CronTaskInfo, add_function, remove_function, set_cron_tasks}
use fx.Config.Same.{same_config}
use fx.Config.{
  FunctionConfig, FunctionCodeConfig, path, inline, EnvVariableConfig, EnvValueSource, value, file,
  FunctionCronTriggerConfig, FunctionTriggersConfig, FunctionBindingsConfig, SqlBindingConfig,
  BlobBindingConfig, KvBindingConfig, FunctionBindingConfig, FunctionHttpEndpointConfig, listed,
}

pub data ApplyConfigError : Type 0 where
  cron_task_shutdown compiler_error function_code_not_found : ApplyConfigError
  function_code_failed_to_read : ApplyConfigError

pub data ReadError : Type 0 where
  missing other_failure : ReadError

-- `M` is a compiled module, `S` a parsed schedule.
pub record Environment (M S : Type 0) : Type 0 where
  pub read : String → Result Bytes ReadError
  pub read_to_string : String → Result String ReadError
  pub compile : Bytes → Option M
  pub parse_schedule : String → Option S
  pub wasm_path : String → String  -- the id's path in the functions directory, with `.wasm`
  pub lower : String → String
  pub uuid : ℕ → String
  pub cron_runs : Bool  -- whether the cron task still takes messages
  pub compiler_runs : Bool  -- whether the compiler takes a message and replies
  pub workers_run : Bool  -- whether every worker still takes messages

pub data SqlLocation : Type 0 where
  in_memory : String → SqlLocation
  database : String → SqlLocation

pub record SqlBinding : Type 0 where
  pub connection_id : String
  pub location : SqlLocation
  pub busy_timeout : Option ℕ

pub record DeployMessage (M : Type 0) : Type 0 where
  pub function_id : String
  pub deployment_id : ℕ
  pub module_ : M
  pub limit_memory_bytes : Option ℕ
  pub http_listeners : List (Option String)
  pub env : Dict String String
  pub bindings_sql : Dict String SqlBinding
  pub bindings_blob : Dict String String
  pub bindings_kv : Dict String String
  pub bindings_functions : Dict String String

pub record CronTrigger (S : Type 0) : Type 0 where
  pub id : String
  pub name : String
  pub schedule : S
  pub endpoint : Option String
  pub timeout : Option ℕ

pub data Message (M S : Type 0) : Type 0 where
  deploy : DeployMessage M → Message M S
  remove_from_workers : String → Message M S
  schedule_add : String → List (CronTrigger S) → Message M S

pub record Monitor : Type 0 where
  pub runtime_state : RuntimeState
  pub deployment_id_counter : ℕ
  pub deployed_state : Dict String FunctionConfig

pub record Applied (M S : Type 0) : Type 0 where
  pub monitor : Monitor
  pub messages : List (Message M S)
  pub result : Result (Unit {0}) ApplyConfigError

abbrev pub http_of : Option FunctionTriggersConfig → List FunctionHttpEndpointConfig
http_of none = []
http_of (some t) = listed t.http

abbrev pub cron_of : Option FunctionTriggersConfig → List FunctionCronTriggerConfig
cron_of none = []
cron_of (some t) = listed t.cron

abbrev pub bindings_of :
    {A : Type 0}
    → (FunctionBindingsConfig → Option (List A))
    → Option FunctionBindingsConfig
    → List A
bindings_of field none = []
bindings_of field (some b) = listed (field b)

abbrev pub task_infos : String → FunctionConfig → List CronTaskInfo
task_infos f config =
    map (λ v. record { name = v.id; function_id = f; schedule = v.schedule })
      (cron_of config.triggers)

abbrev memory_limit : FunctionConfig → Option ℕ
memory_limit config = and_then config.limits (λ v. v.memory_bytes)

module _ {M S : Type 0} (w : Environment M S) where
  abbrev failed_read : ReadError → ApplyConfigError
  failed_read missing = function_code_not_found
  failed_read other_failure = function_code_failed_to_read

  -- The code of the function; a configured path that cannot be read is a panic.
  unfoldable pub module_code :
      String → Option FunctionCodeConfig → Option (Result Bytes ApplyConfigError)
  module_code f (some (path p)) = elim (w.read p) [ ok code ↦ some (ok code) | err e ↦ none ]
  module_code f (some (inline code)) = some (ok code)
  module_code f none = elim (w.read (w.wasm_path f)) [
    | ok code ↦ some (ok code)
    | err e ↦ some (err (failed_read e))
  ]

  -- A variable whose file is missing is left out; any other failure to read it is a `todo!()`.
  unfoldable pub collect_env :
      Dict String String → List EnvVariableConfig → Option (Dict String String)
  collect_env env [] = some env
  collect_env env (v ∷ vs) = elim (v.source) [
    | value s ↦ collect_env (insert v.id s env) vs
    | file p ↦ elim (w.read_to_string p) [
      | ok s ↦ collect_env (insert v.id s env) vs
      | err missing ↦ collect_env env vs
      | err other_failure ↦ none
    ]
  ]

  -- Each binding takes two `Uuid`s, the second of which is used in memory only; `n` counts them.
  unfoldable pub sql_pairs : ℕ → List SqlBindingConfig → List (String × SqlBinding)
  sql_pairs n [] = []
  sql_pairs n (v ∷ vs) =
      (
        v.id,
        record {
          connection_id = w.uuid (2 * n);
          location =
              if unwrap_or v.in_memory false
              then in_memory (w.uuid (2 * n + 1))
              else database v.database_id;
          busy_timeout = v.busy_timeout_ms;
        },
      )
      ∷ sql_pairs (n + 1) vs

  unfoldable pub cron_triggers :
      String → List FunctionCronTriggerConfig → Option (List (CronTrigger S))
  cron_triggers f [] = some []
  cron_triggers f (v ∷ vs) = and_then (w.parse_schedule v.schedule) (λ schedule.
      and_then (cron_triggers f vs) (λ rest. some (
        record {
          id = String.◌++◌ f (String.◌++◌ "::" v.id);
          name = v.id;
          schedule = schedule;
          endpoint = v.endpoint;
          timeout = v.timeout_ms;
        }
        ∷ rest)))

  -- The host of a binding to a function, or the function's id, in lower case.
  abbrev function_pair : FunctionBindingConfig → String × String
  function_pair v = (w.lower (unwrap_or v.host v.function_id), v.function_id)

  unfoldable pub deploy_message :
      String → ℕ → FunctionConfig → M → Dict String String → DeployMessage M
  unfolding sql_pairs
  deploy_message f id config compiled env = record {
    function_id = f;
    deployment_id = id;
    module_ = compiled;
    limit_memory_bytes = memory_limit config;
    http_listeners = map (λ v. v.host) (http_of config.triggers);
    env = env;
    bindings_sql = extend [] (sql_pairs 0 (bindings_of (λ b. b.sql) config.bindings));
    bindings_blob =
        extend [] (map (λ v. (v.id, v.bucket)) (bindings_of (λ b. b.blob) config.bindings));
    bindings_kv =
        extend [] (map (λ v. (v.id, v.namespace)) (bindings_of (λ b. b.kv) config.bindings));
    bindings_functions =
        extend [] (map function_pair (bindings_of (λ b. b.functions) config.bindings));
  }

  -- The last step: the cron task is told, if it is still there.
  schedule_step :
      Monitor → String → FunctionConfig → DeployMessage M → List (CronTrigger S) → Applied M S
  schedule_step m f config message triggers =
      let m' : Monitor = record m {
        runtime_state = set_cron_tasks m.runtime_state f (task_infos f config);
      } in
      if w.cron_runs
      then record {
        monitor = m';
        messages = deploy message ∷ schedule_add f triggers ∷ [];
        result = ok tt;
      }
      else record { monitor = m'; messages = deploy message ∷ []; result = err cron_task_shutdown }

  send_step : Monitor → String → ℕ → FunctionConfig → M → Option (Applied M S)
  unfolding deploy_message collect_env cron_triggers schedule_step
  send_step m f id config compiled = and_then (collect_env [] (listed config.env)) (λ env.
      if w.workers_run
      then Option.map (schedule_step m f config (deploy_message f id config compiled env))
          (cron_triggers f (cron_of config.triggers))
      else none)

  -- The counter moves before the compiler's answer is looked at. A compiler or a worker that is gone
  -- is a panic.
  compile_step : Monitor → String → FunctionConfig → Bytes → Option (Applied M S)
  unfolding send_step
  compile_step m f config code =
      let id = m.deployment_id_counter in
      let m' : Monitor = record m { deployment_id_counter = id + 1 } in
      if w.compiler_runs
      then elim (w.compile code) [
        | none ↦ some (record { monitor = m'; messages = []; result = err compiler_error })
        | some compiled ↦ send_step m' f id config compiled
      ]
      else none

  code_step :
      Monitor → String → FunctionConfig → Result Bytes ApplyConfigError → Option (Applied M S)
  unfolding compile_step
  code_step m f config (err e) = some (record { monitor = m; messages = []; result = err e })
  code_step m f config (ok code) = compile_step m f config code

  unfoldable pub apply_config : Monitor → String → FunctionConfig → Option (Applied M S)
  unfolding code_step module_code
  apply_config m f config =
      let m' : Monitor = record m { runtime_state = add_function m.runtime_state f } in
      and_then (module_code f config.code) (code_step m' f config)

unfoldable pub remove_from_monitor :
    {M S : Type 0} → Environment M S → Monitor → String → Option (Monitor × List (Message M S))
remove_from_monitor w m f =
    if w.workers_run
    then some
        (record m { runtime_state = remove_function m.runtime_state f }, remove_from_workers f ∷ [])
    else none
