-- ===== src/Function.antt =====
-- Calls into a function instance, fx-runtime/src/function/instance.rs, and their errors, also
-- those of function/deployment.rs and tasks/worker/controller.rs that they are turned into.
-- Each `From` impl is a function by clauses.
pub mod Polling
pub mod Requests
mod Tests
use fx.Worker.{
  FunctionInvokeError, not_found, function_panicked, function_crashed, function_busy,
  function_incorrect_response, internal_runtime_assertion_error, internal_runtime_timeout_error,
  function_instantiation_error,
}

-- `wasmtime::Trap`, as far as the program looks at it; an error that is no trap is `other_trap` too.
pub data Trap : Type 0 where
  unreachable_code_reached other_trap : Trap

pub data WasmFunctionCallError : Type 0 where
  panicked crashed : WasmFunctionCallError

unfoldable pub call_error : Trap → WasmFunctionCallError
call_error unreachable_code_reached = panicked
call_error other_trap = crashed

pub data InvokeError : Type 0 where
  busy panicked crashed : InvokeError

unfoldable pub invoke_error : WasmFunctionCallError → InvokeError
invoke_error WasmFunctionCallError.panicked = InvokeError.panicked
invoke_error WasmFunctionCallError.crashed = InvokeError.crashed

pub data BackgroundTaskPollError : Type 0 where
  abi_error panicked crashed : BackgroundTaskPollError

unfoldable pub background_error : WasmFunctionCallError → BackgroundTaskPollError
background_error WasmFunctionCallError.panicked = BackgroundTaskPollError.panicked
background_error WasmFunctionCallError.crashed = BackgroundTaskPollError.crashed

pub data FunctionResponsePollError : Type 0 where
  assertion_error store_lock_acquire_timeout abi_error : FunctionResponsePollError
  panicked crashed : FunctionResponsePollError
  failed_to_deserialize host_resource_not_found : FunctionResponsePollError
  invalid_status_code invalid_headers : FunctionResponsePollError

unfoldable pub response_error : WasmFunctionCallError → FunctionResponsePollError
response_error WasmFunctionCallError.panicked = FunctionResponsePollError.panicked
response_error WasmFunctionCallError.crashed = FunctionResponsePollError.crashed

-- `FunctionDeploymentHandleRequestError`
pub data HandleRequestError : Type 0 where
  assertion_error runtime_timeout panicked crashed busy : HandleRequestError
  incorrect_response instantiation_error : HandleRequestError

unfoldable pub request_error_of_invoke : InvokeError → HandleRequestError
request_error_of_invoke InvokeError.busy = HandleRequestError.busy
request_error_of_invoke InvokeError.panicked = HandleRequestError.panicked
request_error_of_invoke InvokeError.crashed = HandleRequestError.crashed

unfoldable pub request_error_of_response : FunctionResponsePollError → HandleRequestError
request_error_of_response FunctionResponsePollError.assertion_error =
    HandleRequestError.assertion_error
request_error_of_response FunctionResponsePollError.panicked = HandleRequestError.panicked
request_error_of_response FunctionResponsePollError.crashed = HandleRequestError.crashed
request_error_of_response FunctionResponsePollError.abi_error = incorrect_response
request_error_of_response failed_to_deserialize = incorrect_response
request_error_of_response host_resource_not_found = incorrect_response
request_error_of_response invalid_status_code = incorrect_response
request_error_of_response invalid_headers = incorrect_response
request_error_of_response store_lock_acquire_timeout = runtime_timeout

-- `FunctionInvokeError::from`
unfoldable pub invoke_error_of_request : HandleRequestError → FunctionInvokeError
invoke_error_of_request HandleRequestError.assertion_error = internal_runtime_assertion_error
invoke_error_of_request runtime_timeout = internal_runtime_timeout_error
invoke_error_of_request HandleRequestError.busy = function_busy
invoke_error_of_request HandleRequestError.panicked = function_panicked
invoke_error_of_request HandleRequestError.crashed = function_crashed
invoke_error_of_request incorrect_response = function_incorrect_response
invoke_error_of_request instantiation_error = function_instantiation_error
