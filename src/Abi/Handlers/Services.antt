-- ===== src/Abi/Handlers/Services.antt =====
-- The host functions of fx-runtime/src/function/abi/mod.rs on the environment, metrics, random
-- numbers, logs and background tasks. `str` is ordered by its characters, as by its bytes.
use Prim.Native.Nat.{Ordering}
use Prim.Native.String.{compare}
use mathlib.Core.Option
use fx.Prelude.{
  ℕ, Bool, true, false, Option, none, some, String, ok, err, length, List, [], ◌∷◌, ◌++◌, string_eq,
  filter_map, unwrap_or, if◌then◌else◌, ℤ,
}
use fx.Prelude.Dict.{Dict, lookup, extend}
use fx.Metrics.{MetricKey, counter_register, counter_increment, gauge_update}
use fx.Abi.Memory.{Bytes, linear, from_caller, slice, overwrite, copy_from_slice, write_struct}
use fx.Abi.Layout.{word_bytes}
use fx.Abi.Codes.{as_u64}
use fx.Abi.Codes.Services.{
  EnvLenResultCode, EnvGetResult, MetricsCounterRegisterResultCode, RandomResultCode,
  AbiOperationResultCode, env_len_code, env_get_code, metrics_counter_register_code, random_code,
  abi_operation_code,
}
use fx.Abi.State.{Host, Caller, CounterRegister, EventType, instant, LogLevel, info, LogMessage}
use fx.Abi.Handlers.{respond}

-- `labels.sort()`: pairs in the order of their names, then of their values.
unfoldable pub label_leb : String × String → String × String → Bool
label_leb (a, v) (b, w) = elim (compare a b) [
  | Ordering.lt ↦ true
  | Ordering.gt ↦ false
  | Ordering.eq ↦ elim (compare v w) [ Ordering.gt ↦ false | _ ↦ true ]
]

unfoldable pub place : String × String → List (String × String) → List (String × String)
unfolding label_leb
place x [] = x ∷ []
place x (y ∷ ys) = if label_leb x y then x ∷ y ∷ ys else y ∷ place x ys

unfoldable pub sort : List (String × String) → List (String × String)
unfolding place
sort [] = []
sort (x ∷ xs) = place x (sort xs)

unfoldable pub metric_key_of : CounterRegister → MetricKey
unfolding sort
metric_key_of request = record { name = request.name; labels = sort request.labels }

-- `LogMessageEvent`, by what the handler puts into it.
pub record LogMessageEvent : Type 0 where
  pub source : String
  pub event_type : EventType
  pub level : LogLevel
  pub fields : Dict String String

unfoldable pub log_event : String → LogMessage → LogMessageEvent
log_event function_id message = record {
  source = function_id;
  event_type = unwrap_or message.event_type instant;
  level = unwrap_or message.level info;
  fields = extend [] (filter_map (λ field. field) (unwrap_or message.fields []));
}

-- The time since the epoch in milliseconds, where the clock is not before it.
unfoldable pub fx_time_handler : Option ℕ → ℕ
fx_time_handler since_epoch = unwrap_or since_epoch 0

module _ {host : Host} where
  -- The bytes of a request in the caller's memory.
  abbrev pub request_slice : Caller host → ℕ → ℕ → Option Bytes
  request_slice c ptr len = elim (from_caller c.memory) [
    | err _ ↦ none
    | ok view ↦ elim (slice view ptr len) [ err _ ↦ none | ok bytes ↦ some bytes ]
  ]

  -- `none` where nothing is logged: the reason is printed on the host.
  unfoldable pub fx_log_handler : Caller host → ℕ → ℕ → Option LogMessageEvent
  unfolding log_event
  fx_log_handler c req_addr req_len = elim (request_slice c req_addr req_len) [
    | none ↦ none
    | some bytes ↦ Option.map (log_event c.data_mut.function_id) (host.read_log_message bytes)
  ]

  -- `generate` is `OsRng.try_fill_bytes`, by the number of bytes: what the slice then holds, and
  -- whether it succeeded.
  unfoldable pub fx_random_handler : (ℕ → Bytes × Bool) → Caller host → ℕ → ℕ → Caller host × ℕ
  fx_random_handler generate c ptr len = elim (from_caller c.memory) [
    | err _ ↦ (c, as_u64 RandomResultCode.failed_to_read_request)
    | ok view ↦ elim (slice view ptr len) [
      | err _ ↦ (c, as_u64 RandomResultCode.bad_request)
      | ok _ ↦
          (let (bytes, filled) = generate len in
            (
              record c { memory = linear (overwrite ptr bytes view) },
              if filled
                  then as_u64 RandomResultCode.ok
                  else as_u64 RandomResultCode.failed_to_generate,
            ))
    ]
  ]

  unfoldable pub counter_registered : Caller host → ℕ → MetricKey → Option (Caller host × ℕ)
  unfolding respond
  counter_registered c result_addr key =
      let (metrics, counter_id) = counter_register c.data_mut.metrics key in
      respond (record c { data_mut = record c.data_mut { metrics = metrics } })
        (as_u64 MetricsCounterRegisterResultCode.ok)
        (as_u64 AbiOperationResultCode.failed_to_access_memory)
        (as_u64 MetricsCounterRegisterResultCode.result_addr_out_of_memory_bounds)
        (λ view. write_struct view result_addr (word_bytes counter_id))

  unfoldable pub fx_metrics_counter_register_handler :
      Caller host → ℕ → ℕ → ℕ → Option (Caller host × ℕ)
  unfolding counter_registered metric_key_of
  fx_metrics_counter_register_handler c req_ptr req_len result_addr =
      elim (request_slice c req_ptr req_len) [
        | none ↦ some (c, as_u64 MetricsCounterRegisterResultCode.failed_to_read_request)
        | some bytes ↦ elim (host.read_counter_register bytes) [
          | none ↦ some (c, as_u64 MetricsCounterRegisterResultCode.bad_request)
          | some request ↦ counter_registered c result_addr (metric_key_of request)
        ]
      ]

  unfoldable pub fx_metrics_counter_increment_handler : Caller host → ℕ → ℕ → Caller host
  fx_metrics_counter_increment_handler c counter_id delta = record c {
    data_mut = record c.data_mut {
      metrics = counter_increment c.data_mut.metrics counter_id delta;
    };
  }

  unfoldable pub fx_metrics_gauge_update : Caller host → ℕ → ℤ → Caller host
  fx_metrics_gauge_update c gauge_id value = record c {
    data_mut = record c.data_mut { metrics = gauge_update c.data_mut.metrics gauge_id value };
  }

  unfoldable pub fx_env_len_handler : Caller host → ℕ → ℕ → ℕ → Option (Caller host × ℕ)
  unfolding respond
  fx_env_len_handler c key_addr key_len result_addr = elim (request_slice c key_addr key_len) [
    | none ↦ some (c, as_u64 EnvLenResultCode.failed_to_read_request)
    | some bytes ↦ elim (host.from_utf8 bytes) [
      | none ↦ some (c, as_u64 EnvLenResultCode.bad_request)
      | some key ↦ elim (lookup key c.data_mut.env) [
        | none ↦ some (c, as_u64 EnvLenResultCode.not_found)
        | some value ↦
            respond c (as_u64 EnvLenResultCode.ok)
              (as_u64 AbiOperationResultCode.failed_to_access_memory)
              (as_u64 EnvLenResultCode.result_addr_out_of_memory_bounds)
              (λ view. write_struct view result_addr (word_bytes (length (host.as_bytes value))))
      ]
    ]
  ]

  unfoldable pub fx_env_get_handler : Caller host → ℕ → ℕ → ℕ → Option (Caller host × ℕ)
  unfolding respond
  fx_env_get_handler c key_addr key_len value_addr = elim (request_slice c key_addr key_len) [
    | none ↦ some (c, as_u64 EnvGetResult.failed_to_read_request)
    | some bytes ↦ elim (host.from_utf8 bytes) [
      | none ↦ some (c, as_u64 EnvGetResult.bad_request)
      | some key ↦ elim (lookup key c.data_mut.env) [
        | none ↦ some (c, as_u64 EnvGetResult.not_found)
        | some value ↦
            respond c (as_u64 EnvGetResult.ok) (as_u64 EnvGetResult.failed_to_read_request)
              (as_u64 EnvGetResult.failed_to_write_value)
              (λ view.
                copy_from_slice view value_addr (length (host.as_bytes value))
                  (host.as_bytes value))
      ]
    ]
  ]

  unfoldable pub fx_tasks_background_spawn_handler : Caller host → ℕ → Caller host
  fx_tasks_background_spawn_handler c function_resource_id = record c {
    data_mut = record c.data_mut {
      tasks_background = c.data_mut.tasks_background ++ function_resource_id ∷ [];
    };
  }
