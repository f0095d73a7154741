-- ===== src/Abi/Sdk/Services.antt =====
-- The environment, fx-sdk/src/api/env.rs, and counters, fx-sdk/src/api/metrics.rs, for functions. The
-- key and the request lie in the function's memory, at the addresses given.
use fx.Prelude.{ℕ, Option, none, some, Result, ok, err, String, List, [], ◌∷◌, length}
use fx.Abi.Layout.{word_of}
use fx.Abi.Codes.{try_from}
use fx.Abi.Codes.Services.{
  EnvLenResultCode, EnvGetResult, MetricsCounterRegisterResultCode, env_len_code, env_get_code,
  metrics_counter_register_code,
}
use fx.Abi.State.{Host, Caller}
use fx.Abi.Handlers.Services.{
  fx_env_len_handler, fx_env_get_handler, fx_metrics_counter_register_handler,
}
use fx.Abi.Sdk.{◌>>=◌, zeros, poke, peek}

pub data EnvGetError : Type 0 where
  internal_sdk_error assertion_error : EnvGetError

-- `none` goes on to read the value.
env_len_answered : Option EnvLenResultCode → Option (Result (Option String) EnvGetError)
env_len_answered (some EnvLenResultCode.ok) = none
env_len_answered (some EnvLenResultCode.not_found) = some (ok none)
env_len_answered (some EnvLenResultCode.bad_request) = some (err EnvGetError.internal_sdk_error)
env_len_answered (some EnvLenResultCode.failed_to_read_request) =
    some (err EnvGetError.internal_sdk_error)
env_len_answered (some EnvLenResultCode.result_addr_out_of_memory_bounds) =
    some (err EnvGetError.internal_sdk_error)
env_len_answered none = some (err EnvGetError.internal_sdk_error)

env_get_answered : Option EnvGetResult → Result (Unit {0}) EnvGetError
env_get_answered (some EnvGetResult.ok) = ok tt
env_get_answered (some EnvGetResult.not_found) = err EnvGetError.assertion_error
env_get_answered (some EnvGetResult.bad_request) = err EnvGetError.internal_sdk_error
env_get_answered (some EnvGetResult.failed_to_read_request) = err EnvGetError.internal_sdk_error
env_get_answered (some EnvGetResult.failed_to_write_value) = err EnvGetError.internal_sdk_error
env_get_answered none = err EnvGetError.internal_sdk_error

-- Each name with its value. The list of labels is made for all names, so a name without a value leaves
-- an empty label, and a value without a name is dropped.
unfoldable pub label_list : List String → List String → List (String × String)
label_list [] values = []
label_list (name ∷ names) [] = ("", "") ∷ label_list names []
label_list (name ∷ names) (value ∷ values) = (name, value) ∷ label_list names values

pub data CounterRegisterError : Type 0 where
  internal_sdk_error : CounterRegisterError

register_answered : Option MetricsCounterRegisterResultCode → Result (Unit {0}) CounterRegisterError
register_answered (some MetricsCounterRegisterResultCode.ok) = ok tt
register_answered (some MetricsCounterRegisterResultCode.bad_request) =
    err CounterRegisterError.internal_sdk_error
register_answered (some MetricsCounterRegisterResultCode.failed_to_read_request) =
    err CounterRegisterError.internal_sdk_error
register_answered (some MetricsCounterRegisterResultCode.result_addr_out_of_memory_bounds) =
    err CounterRegisterError.internal_sdk_error
register_answered none = err CounterRegisterError.internal_sdk_error

-- `String::from_utf8(value).unwrap()`
text_of :
    {host : Host}
    → Option String
    → Caller host
    → Option (Caller host × Result (Option String) EnvGetError)
text_of none c = none
text_of (some text) c = some (c, ok (some text))

module _ {host : Host} (slot : ℕ) where
  -- `env::get`, of the key at `key_addr`.
  unfoldable pub env_get :
      (buffer : ℕ → ℕ)
      → Caller host
      → (key_addr key_len : ℕ) → Option (Caller host × Result (Option String) EnvGetError)
  unfolding env_len_answered env_get_answered text_of
  env_get buffer c key_addr key_len = do
    (c', code) ← fx_env_len_handler (poke c slot (zeros 8)) key_addr key_len slot
    elim (env_len_answered (try_from code)) [
      | some answer ↦ some (c', answer)
      | none ↦
          (let length = word_of (peek c' slot 8) in
            fx_env_get_handler (poke c' (buffer length) (zeros length)) key_addr key_len
              (buffer length)
            >>= λ got. elim (env_get_answered (try_from got.1)) [
              | err e ↦ some (got.0, err e)
              | ok _ ↦ text_of (host.from_utf8 (peek got.0 (buffer length) length)) got.0
            ])
    ]

  -- `CounterTemplate::with_label_values`: the counter's id. The request is written at `addr`.
  unfoldable pub with_label_values :
      Caller host
      → (addr : ℕ) (name : String) (label_names values : List String)
      → Option (Caller host × Result ℕ CounterRegisterError)
  unfolding register_answered label_list
  with_label_values c addr name label_names values =
      let message =
        host.write_counter_register
          (record { name = name; labels = label_list label_names values }) in
      fx_metrics_counter_register_handler (poke (poke c addr message) slot (zeros 8)) addr
        (length message) slot
      >>= λ registered. elim (register_answered (try_from registered.1)) [
        | err e ↦ some (registered.0, err e)
        | ok _ ↦ some (registered.0, ok (word_of (peek registered.0 slot 8)))
      ]
