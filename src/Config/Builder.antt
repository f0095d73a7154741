-- ===== src/Config/Builder.antt =====
-- The builders of a configuration, fx-runtime/src/definitions/config.rs: `FunctionConfig::new` and
-- its `with_*` methods, those of its triggers and of its bindings.
use fx.Prelude.{false, Option, none, some, String, unwrap_or}
use fx.Kv.{Bytes}
use fx.Config.Triggers
use fx.Config.Bindings
use fx.Config.{
  FunctionConfig, LoggerConfig, LimitsConfig, inline, EnvVariableConfig, value,
  FunctionCronTriggerConfig, pushed, SqlBindingConfig, FunctionBindingConfig,
}

unfoldable pub new : String → FunctionConfig
new config_path = record {
  config_path = some config_path;
  logger = none;
  limits = none;
  code = none;
  env = none;
  triggers = none;
  bindings = none;
}

unfoldable pub with_limits : FunctionConfig → LimitsConfig → FunctionConfig
with_limits c limits = record c { limits = some limits }

unfoldable pub with_code_inline : FunctionConfig → Bytes → FunctionConfig
with_code_inline c code = record c { code = some (inline code) }

unfoldable pub with_env_config : FunctionConfig → EnvVariableConfig → FunctionConfig
with_env_config c config = record c { env = pushed c.env config }

unfoldable pub with_env : FunctionConfig → String → String → FunctionConfig
unfolding with_env_config
with_env c id v = with_env_config c (record { id = id; source = value v })

unfoldable pub with_logger : FunctionConfig → LoggerConfig → FunctionConfig
with_logger c logger = record c { logger = some logger }

unfoldable pub with_trigger_http : FunctionConfig → Option String → FunctionConfig
unfolding Triggers.with_http
with_trigger_http c host = record c {
  triggers = some (Triggers.with_http (unwrap_or c.triggers Triggers.new) host);
}

unfoldable pub with_trigger_cron : FunctionConfig → String → String → FunctionConfig
unfolding Triggers.with_cron
with_trigger_cron c id schedule = record c {
  triggers = some (Triggers.with_cron (unwrap_or c.triggers Triggers.new) id schedule);
}

unfoldable pub with_trigger_cron_config :
    FunctionConfig → FunctionCronTriggerConfig → FunctionConfig
unfolding Triggers.with_cron_config
with_trigger_cron_config c config = record c {
  triggers = some (Triggers.with_cron_config (unwrap_or c.triggers Triggers.new) config);
}

unfoldable pub with_binding_blob : FunctionConfig → String → String → FunctionConfig
unfolding Bindings.with_blob
with_binding_blob c id bucket = record c {
  bindings = some (Bindings.with_blob (unwrap_or c.bindings Bindings.new) id bucket);
}

unfoldable pub with_binding_sql_config : FunctionConfig → SqlBindingConfig → FunctionConfig
unfolding Bindings.with_sql
with_binding_sql_config c config = record c {
  bindings = some (Bindings.with_sql (unwrap_or c.bindings Bindings.new) config);
}

unfoldable pub with_binding_sql : FunctionConfig → String → String → FunctionConfig
unfolding with_binding_sql_config
with_binding_sql c id database_id =
    with_binding_sql_config c (record {
      id = id;
      database_id = database_id;
      in_memory = some false;
      busy_timeout_ms = none;
    })

unfoldable pub with_binding_kv : FunctionConfig → String → String → FunctionConfig
unfolding Bindings.with_kv
with_binding_kv c id namespace = record c {
  bindings = some (Bindings.with_kv (unwrap_or c.bindings Bindings.new) id namespace);
}

unfoldable pub with_binding_function : FunctionConfig → FunctionBindingConfig → FunctionConfig
unfolding Bindings.with_function
with_binding_function c config = record c {
  bindings = some (Bindings.with_function (unwrap_or c.bindings Bindings.new) config);
}
