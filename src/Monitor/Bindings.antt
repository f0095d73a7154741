-- ===== src/Monitor/Bindings.antt =====
-- What a configuration that was built by `FunctionConfig`'s methods becomes in the message that
-- deploys it, fx-runtime/src/definitions/config.rs and fx-runtime/src/definitions/monitor.rs.
use fx.Prelude.{
  Result-cases, string_eq, ℕ, Option, some, List, [], ◌∷◌, ◌++◌, String, map, ◌≡◌, refl, arith,
  unwrap_or, inl, inr, ◌⊎◌,
}
use fx.Prelude.Dict.{Dict, lookup, insert, extend, lookup-insert_self}
use fx.Config.{
  EnvValueSource, EnvVariableConfig, value, file, FunctionConfig, SqlBindingConfig, KvBindingConfig,
  FunctionBindingsConfig, listed, pushed,
}
use fx.Config.Triggers.{with_http}
use fx.Config.Bindings.{with_kv}
use fx.Config.Builder.{with_binding_kv, with_trigger_http, with_env, with_env_config}
use fx.Monitor.{missing, other_failure, Environment, deploy_message, collect_env}

-- A pair that comes last is what is looked up.
extend_last :
    (m : Dict String String) (kvs : List (String × String)) (k v : String)
    → lookup k (extend m (kvs ++ (k, v) ∷ [])) ≡ some v
unfolding extend
extend_last m [] k v = lookup-insert_self k v m
extend_last m ((j, w) ∷ kvs) k v = extend_last (insert j w m) kvs k v

map_last :
    {A B : Type 0} (f : A → B) (xs : List A) (x : A) → map f (xs ++ x ∷ []) ≡ map f xs ++ f x ∷ []
map_last f [] x = refl
map_last f (y ∷ xs) x = ground (arith, map_last f xs x)

pub source-cases :
    (s : EnvValueSource) → ((v : String) × (s ≡ value v)) ⊎ ((p : String) × (s ≡ file p))
source-cases (value v) = inl (v, refl)
source-cases (file p) = inr (p, refl)

module _ {M S : Type 0} (w : Environment M S) where
  -- The namespace given last to a binding by `with_binding_kv` is the one that the workers bind it
  -- to, whatever the configuration bound it to before.
  pub kv_bound :
      (c : FunctionConfig) (id namespace f : String) (n : ℕ) (compiled : M)
      (env : Dict String String)
      → lookup id (deploy_message w f n (with_binding_kv c id namespace) compiled env).bindings_kv
        ≡ some namespace
  unfolding deploy_message with_binding_kv with_kv
  kv_bound c id namespace f n compiled env =
      let kvs = listed (unwrap_or c.bindings fx.Config.Bindings.new).kv in
      let pair : KvBindingConfig → String × String = λ v. (v.id, v.namespace) in
      rw (map_last pair kvs (record { id = id; namespace = namespace }))
        (extend_last [] (map pair kvs) id namespace)

  -- However many hosts `with_trigger_http` was called with, the workers are told of the last one
  -- only.
  pub last_host_only :
      (c : FunctionConfig) (host : Option String) (f : String) (n : ℕ) (compiled : M)
      (env : Dict String String)
      → (deploy_message w f n (with_trigger_http c host) compiled env).http_listeners ≡ host ∷ []
  unfolding deploy_message with_trigger_http with_http
  last_host_only c host f n compiled env = refl

  collect_last :
      (env : Dict String String) (vs : List EnvVariableConfig) (id v : String)
      (r : Dict String String)
      → collect_env w env (vs ++ record { id = id; source = value v } ∷ []) ≡ some r
      → lookup id r ≡ some v
  unfolding collect_env
  collect_last env [] id v r h = ground (arith, lookup-insert_self id v env)
  collect_last env (x ∷ vs) id v r h = elim (source-cases x.source) [
    | inl (s, e) ↦ collect_last (insert x.id s env) vs id v r (ground arith)
    | inr (p, e) ↦ elim (Result-cases (w.read_to_string p)) [
      | inl (s, k) ↦ collect_last (insert x.id s env) vs id v r (ground arith)
      | inr (missing, k) ↦ collect_last env vs id v r (ground arith)
      | inr (other_failure, k) ↦ absurd (ground arith)
    ]
  ]

  -- A variable set by `with_env` has, when the environment can be collected, the value given last,
  -- whatever the configuration set it to before.
  pub env_bound :
      (c : FunctionConfig) (id v : String) (r : Dict String String)
      → collect_env w [] (listed (with_env c id v).env) ≡ some r
      → lookup id r ≡ some v
  unfolding with_env with_env_config
  env_bound c id v r h = collect_last [] (listed c.env) id v r h
