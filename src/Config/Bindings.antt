-- ===== src/Config/Bindings.antt =====
-- `FunctionBindingsConfig::new` and its `with_*` methods, fx-runtime/src/definitions/config.rs.
use fx.Prelude.{none, String}
use fx.Config.{FunctionBindingsConfig, SqlBindingConfig, FunctionBindingConfig, pushed}

abbrev pub new : FunctionBindingsConfig
new = record { sql = none; blob = none; kv = none; functions = none }

unfoldable pub with_blob : FunctionBindingsConfig → String → String → FunctionBindingsConfig
with_blob b id bucket = record b { blob = pushed b.blob (record { id = id; bucket = bucket }) }

unfoldable pub with_sql : FunctionBindingsConfig → SqlBindingConfig → FunctionBindingsConfig
with_sql b config = record b { sql = pushed b.sql config }

unfoldable pub with_kv : FunctionBindingsConfig → String → String → FunctionBindingsConfig
with_kv b id namespace = record b { kv = pushed b.kv (record { id = id; namespace = namespace }) }

unfoldable pub with_function :
    FunctionBindingsConfig → FunctionBindingConfig → FunctionBindingsConfig
with_function b config = record b { functions = pushed b.functions config }
