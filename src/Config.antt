-- ===== src/Config.antt =====
-- The configuration of a function, fx-runtime/src/definitions/config.rs. A path is its text, and a
-- custom logger, which the source shares by reference, is a number that stands for it.
pub mod Bindings
pub mod Builder
pub mod Same
pub mod Triggers
use fx.Prelude.{ℕ, Bool, Option, none, some, List, [], ◌∷◌, ◌++◌, String}
use fx.Kv.{Bytes}

pub data FunctionCodeConfig : Type 0 where
  path : String → FunctionCodeConfig
  inline : Bytes → FunctionCodeConfig

pub data LoggerConfig : Type 0 where
  stdout noop : LoggerConfig
  http_logger : String → LoggerConfig
  custom : ℕ → LoggerConfig

pub record LimitsConfig : Type 0 where
  pub memory_bytes : Option ℕ

pub data EnvValueSource : Type 0 where
  value : String → EnvValueSource
  file : String → EnvValueSource

pub record EnvVariableConfig : Type 0 where
  pub id : String
  pub source : EnvValueSource

pub record FunctionHttpEndpointConfig : Type 0 where
  pub host : Option String

pub record FunctionCronTriggerConfig : Type 0 where
  pub id : String
  pub schedule : String
  pub endpoint : Option String
  pub timeout_ms : Option ℕ

pub record FunctionTriggersConfig : Type 0 where
  pub http : Option (List FunctionHttpEndpointConfig)
  pub cron : Option (List FunctionCronTriggerConfig)

pub record SqlBindingConfig : Type 0 where
  pub id : String
  pub database_id : String
  pub in_memory : Option Bool
  pub busy_timeout_ms : Option ℕ

pub record BlobBindingConfig : Type 0 where
  pub id : String
  pub bucket : String

pub record KvBindingConfig : Type 0 where
  pub id : String
  pub namespace : String

pub record FunctionBindingConfig : Type 0 where
  pub id : String
  pub function_id : String
  pub host : Option String

pub record FunctionBindingsConfig : Type 0 where
  pub sql : Option (List SqlBindingConfig)
  pub blob : Option (List BlobBindingConfig)
  pub kv : Option (List KvBindingConfig)
  pub functions : Option (List FunctionBindingConfig)

pub record FunctionConfig : Type 0 where
  pub config_path : Option String
  pub logger : Option LoggerConfig
  pub limits : Option LimitsConfig
  pub code : Option FunctionCodeConfig
  pub env : Option (List EnvVariableConfig)
  pub triggers : Option FunctionTriggersConfig
  pub bindings : Option FunctionBindingsConfig

-- `iter().flat_map(..)` over an optional list.
abbrev pub listed {ℓ} : {A : Type ℓ} → Option (List A) → List A
listed none = []
listed (some xs) = xs

-- A list that is made when it is missing, and pushed to.
abbrev pub pushed {ℓ} : {A : Type ℓ} → Option (List A) → A → Option (List A)
pushed xs x = some (listed xs ++ x ∷ [])
