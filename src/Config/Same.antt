-- ===== src/Config/Same.antt =====
-- Equality of configurations, as derived in fx-runtime/src/definitions/config.rs, with the written
-- one of `LoggerConfig`, for which any two custom loggers are equal.
use fx.Prelude.{
  string_eq, nat_eq, list_eq, Bool, true, false, ◌&&◌, Option, none, some, List, [], ◌∷◌, ◌≡◌, refl,
  Eq, ◌==◌, ==_iff, arith,
}
use fx.Config.{
  FunctionConfig, LoggerConfig, stdout, noop, http_logger, custom, FunctionCodeConfig, path, inline,
  EnvVariableConfig, EnvValueSource, value, file, FunctionCronTriggerConfig, FunctionTriggersConfig,
  SqlBindingConfig, BlobBindingConfig, KvBindingConfig, FunctionBindingConfig,
  FunctionBindingsConfig,
}

-- A test that holds of a value and itself.
abbrev IsReflexive : {A : Type 0} → (A → A → Bool) → Type 0
IsReflexive {A} same = (a : A) → same a a ≡ true

same_option : {A : Type 0} → (A → A → Bool) → Option A → Option A → Bool
same_option same none none = true
same_option same (some a) (some b) = same a b
same_option same _ _ = false

same_list : {A : Type 0} → (A → A → Bool) → List A → List A → Bool
same_list same [] [] = true
same_list same (a ∷ xs) (b ∷ ys) = same a b && same_list same xs ys
same_list same _ _ = false

abbrev same_options : {A : Type 0} ⦃e : Eq A⦄ → Option A → Option A → Bool
same_options = same_option ◌==◌

abbrev same_bool : Bool → Bool → Bool
same_bool true b = b
same_bool false true = false
same_bool false false = true

unfoldable pub same_logger : LoggerConfig → LoggerConfig → Bool
same_logger stdout stdout = true
same_logger noop noop = true
same_logger (http_logger a) (http_logger b) = a == b
same_logger (custom _) (custom _) = true
same_logger _ _ = false

abbrev same_code : FunctionCodeConfig → FunctionCodeConfig → Bool
same_code (path a) (path b) = a == b
same_code (inline a) (inline b) = a == b
same_code _ _ = false

abbrev same_source : EnvValueSource → EnvValueSource → Bool
same_source (value a) (value b) = a == b
same_source (file a) (file b) = a == b
same_source _ _ = false

abbrev same_env : EnvVariableConfig → EnvVariableConfig → Bool
same_env a b = a.id == b.id && same_source a.source b.source

same_cron : FunctionCronTriggerConfig → FunctionCronTriggerConfig → Bool
unfolding same_option
same_cron a b =
    a.id == b.id
    && (a.schedule == b.schedule
        && (same_options a.endpoint b.endpoint && same_options a.timeout_ms b.timeout_ms))

same_triggers : FunctionTriggersConfig → FunctionTriggersConfig → Bool
unfolding same_cron same_list same_option
same_triggers a b =
    same_option (same_list (λ x y. same_options x.host y.host)) a.http b.http
    && same_option (same_list same_cron) a.cron b.cron

same_sql : SqlBindingConfig → SqlBindingConfig → Bool
unfolding same_option
same_sql a b =
    a.id == b.id
    && (a.database_id == b.database_id
        && (same_option same_bool a.in_memory b.in_memory
            && same_options a.busy_timeout_ms b.busy_timeout_ms))

abbrev same_blob : BlobBindingConfig → BlobBindingConfig → Bool
same_blob a b = a.id == b.id && a.bucket == b.bucket

abbrev same_kv : KvBindingConfig → KvBindingConfig → Bool
same_kv a b = a.id == b.id && a.namespace == b.namespace

same_function : FunctionBindingConfig → FunctionBindingConfig → Bool
unfolding same_option
same_function a b = a.id == b.id && (a.function_id == b.function_id && same_options a.host b.host)

same_bindings : FunctionBindingsConfig → FunctionBindingsConfig → Bool
unfolding same_option same_list same_sql same_function
same_bindings a b =
    same_option (same_list same_sql) a.sql b.sql
    && (same_option (same_list same_blob) a.blob b.blob
        && (same_option (same_list same_kv) a.kv b.kv
            && same_option (same_list same_function) a.functions b.functions))

unfoldable pub same_config : FunctionConfig → FunctionConfig → Bool
unfolding same_logger same_triggers same_bindings same_option same_list
same_config a b =
    same_options a.config_path b.config_path
    && (same_option same_logger a.logger b.logger
        && (same_option (λ x y. same_options x.memory_bytes y.memory_bytes) a.limits b.limits
            && (same_option same_code a.code b.code
                && (same_option (same_list same_env) a.env b.env
                    && (same_option same_triggers a.triggers b.triggers
                        && same_option same_bindings a.bindings b.bindings)))))

module _ {A : Type 0} (same : A → A → Bool) (h : IsReflexive same) where
  same_option-IsReflexive : IsReflexive (same_option same)
  unfolding same_option
  same_option-IsReflexive none = refl
  same_option-IsReflexive (some a) = h a

  same_list-IsReflexive : IsReflexive (same_list same)
  unfolding same_list
  same_list-IsReflexive [] = refl
  same_list-IsReflexive (a ∷ xs) = ground (arith, h a, same_list-IsReflexive xs)

==-IsReflexive : {A : Type 0} ⦃e : Eq A⦄ → IsReflexive (◌==◌ {A = A} ⦃eq = e⦄)
==-IsReflexive ⦃e⦄ a = (==_iff a a).1 refl

same_options-IsReflexive : {A : Type 0} ⦃e : Eq A⦄ → IsReflexive (same_options {A = A} ⦃e = e⦄)
same_options-IsReflexive ⦃e⦄ = same_option-IsReflexive ◌==◌ ==-IsReflexive

same_bool-IsReflexive : IsReflexive same_bool
same_bool-IsReflexive true = refl
same_bool-IsReflexive false = refl

same_logger-IsReflexive : IsReflexive same_logger
unfolding same_logger
same_logger-IsReflexive stdout = refl
same_logger-IsReflexive noop = refl
same_logger-IsReflexive (http_logger a) = ==-IsReflexive a
same_logger-IsReflexive (custom n) = refl

same_code-IsReflexive : IsReflexive same_code
same_code-IsReflexive (path a) = ==-IsReflexive a
same_code-IsReflexive (inline a) = ==-IsReflexive a

same_source-IsReflexive : IsReflexive same_source
same_source-IsReflexive (value a) = ==-IsReflexive a
same_source-IsReflexive (file a) = ==-IsReflexive a

both : {a b : Bool} → a ≡ true → b ≡ true → (a && b) ≡ true
both p q = ground arith

same_env-IsReflexive : IsReflexive same_env
same_env-IsReflexive a = both (==-IsReflexive a.id) (same_source-IsReflexive a.source)

same_cron-IsReflexive : IsReflexive same_cron
unfolding same_cron
same_cron-IsReflexive a = both (==-IsReflexive a.id) (
    both (==-IsReflexive a.schedule)
      (both (same_options-IsReflexive a.endpoint) (same_options-IsReflexive a.timeout_ms)))

same_triggers-IsReflexive : IsReflexive same_triggers
unfolding same_triggers
same_triggers-IsReflexive a =
    both
      (same_option-IsReflexive (same_list (λ x y. same_options x.host y.host))
        (same_list-IsReflexive (λ x y. same_options x.host y.host)
          (λ x. same_options-IsReflexive x.host))
        a.http)
      (same_option-IsReflexive (same_list same_cron)
        (same_list-IsReflexive same_cron same_cron-IsReflexive) a.cron)

same_sql-IsReflexive : IsReflexive same_sql
unfolding same_sql
same_sql-IsReflexive a = both (==-IsReflexive a.id) (
    both (==-IsReflexive a.database_id) (
      both (same_option-IsReflexive same_bool same_bool-IsReflexive a.in_memory)
        (same_options-IsReflexive a.busy_timeout_ms)))

same_function-IsReflexive : IsReflexive same_function
unfolding same_function
same_function-IsReflexive a =
    both (==-IsReflexive a.id)
      (both (==-IsReflexive a.function_id) (same_options-IsReflexive a.host))

same_bindings-IsReflexive : IsReflexive same_bindings
unfolding same_bindings
same_bindings-IsReflexive a =
    both
      (same_option-IsReflexive (same_list same_sql)
        (same_list-IsReflexive same_sql same_sql-IsReflexive) a.sql)
      (both
        (same_option-IsReflexive (same_list same_blob)
          (same_list-IsReflexive same_blob
            (λ x. both (==-IsReflexive x.id) (==-IsReflexive x.bucket)))
          a.blob)
        (both
          (same_option-IsReflexive (same_list same_kv)
            (same_list-IsReflexive same_kv
              (λ x. both (==-IsReflexive x.id) (==-IsReflexive x.namespace)))
            a.kv)
          (same_option-IsReflexive (same_list same_function)
            (same_list-IsReflexive same_function same_function-IsReflexive) a.functions)))

-- A configuration is the same as itself.
pub same_config_refl : (c : FunctionConfig) → same_config c c ≡ true
unfolding same_config
same_config_refl c = both (same_options-IsReflexive c.config_path) (
    both (same_option-IsReflexive same_logger same_logger-IsReflexive c.logger) (
      both
        (same_option-IsReflexive (λ x y. same_options x.memory_bytes y.memory_bytes)
          (λ x. same_options-IsReflexive x.memory_bytes) c.limits)
        (both (same_option-IsReflexive same_code same_code-IsReflexive c.code) (
          both
            (same_option-IsReflexive (same_list same_env)
              (same_list-IsReflexive same_env same_env-IsReflexive) c.env)
            (both (same_option-IsReflexive same_triggers same_triggers-IsReflexive c.triggers)
              (same_option-IsReflexive same_bindings same_bindings-IsReflexive c.bindings))))))
