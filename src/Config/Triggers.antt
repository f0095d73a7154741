-- ===== src/Config/Triggers.antt =====
-- `FunctionTriggersConfig::new` and its `with_*` methods, fx-runtime/src/definitions/config.rs.
use fx.Prelude.{Option, none, some, [], ◌∷◌, String}
use fx.Config.{FunctionTriggersConfig, FunctionCronTriggerConfig, pushed}

abbrev pub new : FunctionTriggersConfig
new = record { http = none; cron = none }

-- The list of hosts is replaced.
unfoldable pub with_http : FunctionTriggersConfig → Option String → FunctionTriggersConfig
with_http t host = record t { http = some (record { host = host } ∷ []) }

unfoldable pub with_cron_config :
    FunctionTriggersConfig → FunctionCronTriggerConfig → FunctionTriggersConfig
with_cron_config t config = record t { cron = pushed t.cron config }

unfoldable pub with_cron : FunctionTriggersConfig → String → String → FunctionTriggersConfig
unfolding with_cron_config
with_cron t id schedule =
    with_cron_config t (record { id = id; schedule = schedule; endpoint = none; timeout_ms = none })
