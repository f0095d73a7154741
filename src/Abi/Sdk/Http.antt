-- ===== src/Abi/Sdk/Http.antt =====
-- The bodies and futures of fx-sdk/src/api/http.rs that stand for resources of the host.
use fx.Prelude.{
  ℕ, Option, none, some, Result, ok, err, Poll, pending, ready, ◌==◌, nat_eq, Bool, true, false,
  if◌then◌else◌,
}
use fx.Abi.Memory.{Bytes}
use fx.Abi.Layout.{poll_result_of, SerializeResult, serialize_result_of}
use fx.Abi.Codes.{try_from}
use fx.Abi.Codes.Resources.{
  ResourceMoveFromHostResult, resource_move_from_host_code, fetch_request_header_serialize_code,
}
use fx.Abi.Codes.Fetches.{
  FetchResultPollResultCode, FetchResultSerializeResultCode, HttpFrameSerializeResultCode,
  fetch_result_poll_code, fetch_result_serialize_code, http_frame_serialize_code,
}
use fx.Abi.Codes.Services.{AbiOperationResultCode, abi_operation_code}
use fx.Abi.State.{Host, HttpResponse, FrameField, FetchErrorField, FetchResultField, Caller}
use fx.Abi.Handlers.{fx_bytes_move_handler}
use fx.Abi.Handlers.Http.{
  fx_fetch_result_future_poll, fx_fetch_result_serialize, fx_http_body_poll_frame,
  fx_http_frame_serialize,
}
use fx.Abi.Sdk.{◌>>=◌, zeros, poke, peek}

pub data HttpBodyStreamError : Type 0 where
  abi_assertion_error failed_to_read internal_sdk_error internal_runtime_error : HttpBodyStreamError

abbrev pub Frame : Type 0
Frame = Option (Result Bytes HttpBodyStreamError)

-- `FetchError`
pub data FetchError : Type 0 where
  connection_failed connection_timeout response_timeout internal_sdk_error : FetchError
  function_not_found function_instantiation_error function_panicked : FetchError
  function_crashed function_busy function_incorrect_response : FetchError
  runtime_shutdown runtime_internal_error : FetchError

unfoldable pub fetch_error : FetchErrorField → FetchError
fetch_error FetchErrorField.failed_to_read_request = FetchError.internal_sdk_error
fetch_error FetchErrorField.bad_request = FetchError.internal_sdk_error
fetch_error FetchErrorField.body_host_resource_id_not_found = FetchError.internal_sdk_error
fetch_error FetchErrorField.connection_failed = FetchError.connection_failed
fetch_error FetchErrorField.connection_timeout = FetchError.connection_timeout
fetch_error FetchErrorField.response_timeout = FetchError.response_timeout
fetch_error FetchErrorField.function_not_found = FetchError.function_not_found
fetch_error FetchErrorField.function_instantiation_error = FetchError.function_instantiation_error
fetch_error FetchErrorField.function_panicked = FetchError.function_panicked
fetch_error FetchErrorField.function_crashed = FetchError.function_crashed
fetch_error FetchErrorField.function_busy = FetchError.function_busy
fetch_error FetchErrorField.function_incorrect_response = FetchError.function_incorrect_response
fetch_error FetchErrorField.runtime_shutdown = FetchError.runtime_shutdown
fetch_error FetchErrorField.runtime_internal_error = FetchError.runtime_internal_error

-- What a code lets the poll of a body do.
body_answered : Option AbiOperationResultCode → Result (Unit {0}) HttpBodyStreamError
body_answered (some AbiOperationResultCode.ok) = ok tt
body_answered (some AbiOperationResultCode.internal_runtime_assertion_error) =
    err HttpBodyStreamError.internal_runtime_error
body_answered (some AbiOperationResultCode.failed_to_access_memory) =
    err HttpBodyStreamError.internal_sdk_error
body_answered (some AbiOperationResultCode.result_addr_out_of_memory_bounds) =
    err HttpBodyStreamError.internal_sdk_error
body_answered none = err HttpBodyStreamError.internal_sdk_error

frame_answered : Option HttpFrameSerializeResultCode → Bool
frame_answered (some HttpFrameSerializeResultCode.ok) = true
frame_answered _ = false

moved_answered : Option ResourceMoveFromHostResult → Bool
moved_answered (some ResourceMoveFromHostResult.ok) = true
moved_answered _ = false

fetch_poll_answered : Option FetchResultPollResultCode → Result (Unit {0}) FetchError
fetch_poll_answered (some FetchResultPollResultCode.ok) = ok tt
fetch_poll_answered (some FetchResultPollResultCode.internal_runtime_assertion_error) =
    err FetchError.runtime_internal_error
fetch_poll_answered (some FetchResultPollResultCode.failed_to_access_memory) =
    err FetchError.internal_sdk_error
fetch_poll_answered (some FetchResultPollResultCode.result_addr_out_of_memory_bounds) =
    err FetchError.internal_sdk_error
fetch_poll_answered (some FetchResultPollResultCode.resource_not_found) =
    err FetchError.internal_sdk_error
fetch_poll_answered none = err FetchError.internal_sdk_error

serialize_answered : Option FetchResultSerializeResultCode → Result (Unit {0}) FetchError
serialize_answered (some FetchResultSerializeResultCode.ok) = ok tt
serialize_answered (some FetchResultSerializeResultCode.internal_runtime_assertion_error) =
    err FetchError.runtime_internal_error
serialize_answered (some FetchResultSerializeResultCode.failed_to_access_memory) =
    err FetchError.internal_sdk_error
serialize_answered (some FetchResultSerializeResultCode.result_addr_out_of_memory_bounds) =
    err FetchError.internal_sdk_error
serialize_answered (some FetchResultSerializeResultCode.resource_not_found) =
    err FetchError.internal_sdk_error
serialize_answered none = err FetchError.internal_sdk_error

-- The frame that a message holds.
unfoldable pub frame_of : FrameField → Frame
frame_of FrameField.stream_end = none
frame_of (FrameField.bytes bytes) = some (ok bytes)
frame_of FrameField.response_stream_read_error = some (err HttpBodyStreamError.failed_to_read)

-- The body of a response is the host's, by its id.
unfoldable pub response_of : FetchResultField → Result (HttpResponse ℕ) FetchError
unfolding fetch_error
response_of (ok response) = ok response
response_of (err e) = err (fetch_error e)

-- `slot` and `slot'` are the addresses of the two results, `buffer` that of a vector by its length.
module _ {host : Host} (slot slot' : ℕ) (buffer : ℕ → ℕ) where
  -- The vector that a message is moved into.
  unfoldable pub receive_bytes : Caller host → SerializeResult → Option ((Caller host × ℕ) × Bytes)
  receive_bytes c result =
      let at = buffer result.bytes_length in
      fx_bytes_move_handler (poke c at (zeros result.bytes_length)) result.bytes_resource_id at
      >>= λ moved. some (moved, peek moved.0 at result.bytes_length)

  unfoldable pub receive_frame : Caller host → (frame_id : ℕ) → Option (Caller host × Frame)
  unfolding frame_answered moved_answered receive_bytes frame_of
  receive_frame c frame_id = do
    (c', code) ← fx_http_frame_serialize (poke c slot' (zeros 16)) frame_id slot'
    (if frame_answered (try_from code)
        then (receive_bytes c' (serialize_result_of (peek c' slot' 16)) >>= λ moved.
            if moved_answered (try_from moved.0.1)
            then (host.read_frame moved.1 >>= λ frame. some (moved.0.0, frame_of frame))
            else some (moved.0.0, some (err HttpBodyStreamError.internal_sdk_error)))
        else some (c', some (err HttpBodyStreamError.internal_sdk_error)))

  -- `HttpBody::poll_next` on a body of the host.
  unfoldable pub poll_next : Caller host → (resource_id : ℕ) → Option (Caller host × Poll Frame)
  unfolding body_answered receive_frame
  poll_next c resource_id = do
    (c', code) ← fx_http_body_poll_frame (poke c slot (zeros 16)) resource_id slot
    elim (body_answered (try_from code)) [
      | err e ↦ some (c', ready (some (err e)))
      | ok _ ↦
          (let result = poll_result_of (peek c' slot 16) in
            if result.tag == 0
            then (receive_frame c' result.resource_id >>= λ received.
                some (received.0, ready received.1))
            else if result.tag == 1
            then some (c', pending)
            else if result.tag == 2
            then some (c', ready (some (err HttpBodyStreamError.internal_sdk_error)))
            else some (c', ready (some (err HttpBodyStreamError.abi_assertion_error))))
    ]

  unfoldable pub receive_result :
      Caller host → (result_id : ℕ) → Option (Caller host × Result (HttpResponse ℕ) FetchError)
  unfolding serialize_answered receive_bytes response_of
  receive_result c result_id = do
    (c', code) ← fx_fetch_result_serialize (poke c slot' (zeros 16)) result_id slot'
    elim (serialize_answered (try_from code)) [
      | err e ↦ some (c', err e)
      | ok _ ↦
          (receive_bytes c' (serialize_result_of (peek c' slot' 16)) >>= λ moved.
          host.read_fetch_result moved.1 >>= λ field. some (moved.0.0, response_of field))
    ]

  -- `FetchResultFuture::poll`
  unfoldable pub poll_fetch :
      Caller host
      → (resource_id : ℕ) → Option (Caller host × Poll (Result (HttpResponse ℕ) FetchError))
  unfolding fetch_poll_answered receive_result
  poll_fetch c resource_id = do
    (c', code) ← fx_fetch_result_future_poll (poke c slot (zeros 16)) resource_id slot
    elim (fetch_poll_answered (try_from code)) [
      | err e ↦ some (c', ready (err e))
      | ok _ ↦
          (let result = poll_result_of (peek c' slot 16) in
            if result.tag == 1
            then some (c', pending)
            else if result.tag == 0
            then (receive_result c' result.resource_id >>= λ received.
                some (received.0, ready received.1))
            else some (c', ready (err FetchError.internal_sdk_error)))
    ]
