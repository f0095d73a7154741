-- ===== src/Abi/Codes/Services.antt =====
-- The codes of the other host functions.
use fx.Prelude.{ℕ, ◌≡◌, refl, Option, none, some, ◌==◌, nat_eq, if◌then◌else◌}
use fx.Abi.Codes.{ResultCode}

pub data EnvLenResultCode : Type 0 where
  ok failed_to_read_request bad_request not_found result_addr_out_of_memory_bounds :
      EnvLenResultCode

abbrev pub env_len_number : EnvLenResultCode → ℕ
env_len_number EnvLenResultCode.ok = 0
env_len_number EnvLenResultCode.failed_to_read_request = 1
env_len_number EnvLenResultCode.bad_request = 2
env_len_number EnvLenResultCode.not_found = 3
env_len_number EnvLenResultCode.result_addr_out_of_memory_bounds = 4

abbrev pub env_len_of : ℕ → Option EnvLenResultCode
env_len_of n =
    if n == 0
    then some EnvLenResultCode.ok
    else if n == 1
    then some EnvLenResultCode.failed_to_read_request
    else if n == 2
    then some EnvLenResultCode.bad_request
    else if n == 3
    then some EnvLenResultCode.not_found
    else if n == 4
    then some EnvLenResultCode.result_addr_out_of_memory_bounds
    else none

abbrev pub env_len_sent : (c : EnvLenResultCode) → env_len_of (env_len_number c) ≡ some c
env_len_sent EnvLenResultCode.ok = refl
env_len_sent EnvLenResultCode.failed_to_read_request = refl
env_len_sent EnvLenResultCode.bad_request = refl
env_len_sent EnvLenResultCode.not_found = refl
env_len_sent EnvLenResultCode.result_addr_out_of_memory_bounds = refl

instance abbrev pub env_len_code : ResultCode EnvLenResultCode
env_len_code = record { as_u64 = env_len_number; try_from = env_len_of; sent = env_len_sent }

pub data EnvGetResult : Type 0 where
  ok failed_to_read_request bad_request not_found failed_to_write_value : EnvGetResult

abbrev pub env_get_number : EnvGetResult → ℕ
env_get_number EnvGetResult.ok = 0
env_get_number EnvGetResult.failed_to_read_request = 1
env_get_number EnvGetResult.bad_request = 2
env_get_number EnvGetResult.not_found = 3
env_get_number EnvGetResult.failed_to_write_value = 4

abbrev pub env_get_of : ℕ → Option EnvGetResult
env_get_of n =
    if n == 0
    then some EnvGetResult.ok
    else if n == 1
    then some EnvGetResult.failed_to_read_request
    else if n == 2
    then some EnvGetResult.bad_request
    else if n == 3
    then some EnvGetResult.not_found
    else if n == 4
    then some EnvGetResult.failed_to_write_value
    else none

abbrev pub env_get_sent : (c : EnvGetResult) → env_get_of (env_get_number c) ≡ some c
env_get_sent EnvGetResult.ok = refl
env_get_sent EnvGetResult.failed_to_read_request = refl
env_get_sent EnvGetResult.bad_request = refl
env_get_sent EnvGetResult.not_found = refl
env_get_sent EnvGetResult.failed_to_write_value = refl

instance abbrev pub env_get_code : ResultCode EnvGetResult
env_get_code = record { as_u64 = env_get_number; try_from = env_get_of; sent = env_get_sent }

pub data MetricsCounterRegisterResultCode : Type 0 where
  ok failed_to_read_request bad_request result_addr_out_of_memory_bounds :
      MetricsCounterRegisterResultCode

abbrev pub metrics_counter_register_number : MetricsCounterRegisterResultCode → ℕ
metrics_counter_register_number MetricsCounterRegisterResultCode.ok = 0
metrics_counter_register_number MetricsCounterRegisterResultCode.failed_to_read_request = 1
metrics_counter_register_number MetricsCounterRegisterResultCode.bad_request = 2
metrics_counter_register_number MetricsCounterRegisterResultCode.result_addr_out_of_memory_bounds =
    3

abbrev pub metrics_counter_register_of : ℕ → Option MetricsCounterRegisterResultCode
metrics_counter_register_of n =
    if n == 0
    then some MetricsCounterRegisterResultCode.ok
    else if n == 1
    then some MetricsCounterRegisterResultCode.failed_to_read_request
    else if n == 2
    then some MetricsCounterRegisterResultCode.bad_request
    else if n == 3
    then some MetricsCounterRegisterResultCode.result_addr_out_of_memory_bounds
    else none

abbrev pub metrics_counter_register_sent :
    (c : MetricsCounterRegisterResultCode)
    → metrics_counter_register_of (metrics_counter_register_number c) ≡ some c
metrics_counter_register_sent MetricsCounterRegisterResultCode.ok = refl
metrics_counter_register_sent MetricsCounterRegisterResultCode.failed_to_read_request = refl
metrics_counter_register_sent MetricsCounterRegisterResultCode.bad_request = refl
metrics_counter_register_sent MetricsCounterRegisterResultCode.result_addr_out_of_memory_bounds =
    refl

instance abbrev pub metrics_counter_register_code : ResultCode MetricsCounterRegisterResultCode
metrics_counter_register_code = record {
  as_u64 = metrics_counter_register_number;
  try_from = metrics_counter_register_of;
  sent = metrics_counter_register_sent;
}

pub data RandomResultCode : Type 0 where
  ok failed_to_generate failed_to_read_request bad_request : RandomResultCode

abbrev pub random_number : RandomResultCode → ℕ
random_number RandomResultCode.ok = 0
random_number RandomResultCode.failed_to_generate = 1
random_number RandomResultCode.failed_to_read_request = 2
random_number RandomResultCode.bad_request = 3

abbrev pub random_of : ℕ → Option RandomResultCode
random_of n =
    if n == 0
    then some RandomResultCode.ok
    else if n == 1
    then some RandomResultCode.failed_to_generate
    else if n == 2
    then some RandomResultCode.failed_to_read_request
    else if n == 3
    then some RandomResultCode.bad_request
    else none

abbrev pub random_sent : (c : RandomResultCode) → random_of (random_number c) ≡ some c
random_sent RandomResultCode.ok = refl
random_sent RandomResultCode.failed_to_generate = refl
random_sent RandomResultCode.failed_to_read_request = refl
random_sent RandomResultCode.bad_request = refl

instance abbrev pub random_code : ResultCode RandomResultCode
random_code = record { as_u64 = random_number; try_from = random_of; sent = random_sent }

pub data AbiOperationResultCode : Type 0 where
  ok failed_to_access_memory result_addr_out_of_memory_bounds internal_runtime_assertion_error :
      AbiOperationResultCode

abbrev pub abi_operation_number : AbiOperationResultCode → ℕ
abi_operation_number AbiOperationResultCode.ok = 0
abi_operation_number AbiOperationResultCode.failed_to_access_memory = 1
abi_operation_number AbiOperationResultCode.result_addr_out_of_memory_bounds = 2
abi_operation_number AbiOperationResultCode.internal_runtime_assertion_error = 3

abbrev pub abi_operation_of : ℕ → Option AbiOperationResultCode
abi_operation_of n =
    if n == 0
    then some AbiOperationResultCode.ok
    else if n == 1
    then some AbiOperationResultCode.failed_to_access_memory
    else if n == 2
    then some AbiOperationResultCode.result_addr_out_of_memory_bounds
    else if n == 3
    then some AbiOperationResultCode.internal_runtime_assertion_error
    else none

abbrev pub abi_operation_sent :
    (c : AbiOperationResultCode) → abi_operation_of (abi_operation_number c) ≡ some c
abi_operation_sent AbiOperationResultCode.ok = refl
abi_operation_sent AbiOperationResultCode.failed_to_access_memory = refl
abi_operation_sent AbiOperationResultCode.result_addr_out_of_memory_bounds = refl
abi_operation_sent AbiOperationResultCode.internal_runtime_assertion_error = refl

instance abbrev pub abi_operation_code : ResultCode AbiOperationResultCode
abi_operation_code = record {
  as_u64 = abi_operation_number;
  try_from = abi_operation_of;
  sent = abi_operation_sent;
}
