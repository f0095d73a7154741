-- ===== src/Abi/Handlers/Http.antt =====
-- The host functions of fx-runtime/src/function/abi/mod.rs on fetch results, bodies and frames.
use fx.Prelude.{and_then, ℕ, Option, none, some, Result, ok, err, Poll, pending, ready, length}
use fx.Abi.Memory.{Bytes, write_struct}
use fx.Abi.Layout.{PollResult, poll_result_bytes, serialize_result_bytes}
use fx.Abi.Codes.{as_u64}
use fx.Abi.Codes.Fetches.{
  FetchResultPollResultCode, FetchResultSerializeResultCode, HttpFrameSerializeResultCode,
  fetch_result_poll_code, fetch_result_serialize_code, http_frame_serialize_code,
}
use fx.Abi.Codes.Services.{AbiOperationResultCode, abi_operation_code}
use fx.Abi.State.{
  Host, HttpBody, HttpStreamError, FetchResultError, FetchErrorField, FetchResultField, FrameField,
  Caller, FetchResult, Body, fetch_response_stream_error, request_body_stream_error,
  function_request_body_stream_error,
}
use fx.Abi.Handlers.{with_resources, with_bytes, respond}

-- The field of the message that each error is sent as.
unfoldable pub error_field : FetchResultError → FetchErrorField
error_field FetchResultError.failed_to_read_request = FetchErrorField.failed_to_read_request
error_field FetchResultError.bad_request = FetchErrorField.bad_request
error_field FetchResultError.body_host_resource_id_not_found =
    FetchErrorField.body_host_resource_id_not_found
error_field FetchResultError.connection_failed = FetchErrorField.connection_failed
error_field FetchResultError.connection_timeout = FetchErrorField.connection_timeout
error_field FetchResultError.response_timeout = FetchErrorField.response_timeout
error_field FetchResultError.function_not_found = FetchErrorField.function_not_found
error_field FetchResultError.function_panicked = FetchErrorField.function_panicked
error_field FetchResultError.function_crashed = FetchErrorField.function_crashed
error_field FetchResultError.function_busy = FetchErrorField.function_busy
error_field FetchResultError.function_incorrect_response =
    FetchErrorField.function_incorrect_response
error_field FetchResultError.runtime_shutdown = FetchErrorField.runtime_shutdown
error_field FetchResultError.function_instantiation_error =
    FetchErrorField.function_instantiation_error
error_field FetchResultError.internal_runtime_assertion_error =
    FetchErrorField.runtime_internal_error
error_field FetchResultError.internal_runtime_timeout_error = FetchErrorField.runtime_internal_error

-- All kinds of stream error are one field.
unfoldable pub frame_field : Option (Result Bytes HttpStreamError) → FrameField
frame_field none = FrameField.stream_end
frame_field (some (ok bytes)) = FrameField.bytes bytes
frame_field (some (err fetch_response_stream_error)) = FrameField.response_stream_read_error
frame_field (some (err request_body_stream_error)) = FrameField.response_stream_read_error
frame_field (some (err function_request_body_stream_error)) = FrameField.response_stream_read_error

abbrev pub function_frame :
    Poll (Option (Result Bytes (Unit {0}))) → Poll (Option (Result Bytes HttpStreamError))
function_frame pending = pending
function_frame (ready none) = ready none
function_frame (ready (some (ok bytes))) = ready (some (ok bytes))
function_frame (ready (some (err e))) = ready (some (err function_request_body_stream_error))

-- One step of a body, whichever kind of stream it is. A step of a function's stream runs that function
-- (`http_body_frame_poll` of fx-runtime/src/function/instance.rs), which is the environment's, and can
-- panic: `none`. So can a stream of the host, which may hold a function's.
unfoldable pub poll_body :
    (host : Host)
    → ℕ
    → Body host
    → Option (Body host × Poll (Option (Result Bytes HttpStreamError)))
poll_body host waker (HttpBody.stream s) =
    and_then (host.poll_stream waker s) (λ step. some (HttpBody.stream step.0, step.1))
poll_body host waker (HttpBody.function_stream s) =
    and_then (host.poll_function waker s)
      (λ step. some (HttpBody.function_stream step.0, function_frame step.1))

module _ {host : Host} where
  abbrev pub with_futures : Caller host → host.slots.Table host.FetchFuture → Caller host
  with_futures c t = with_resources c (record c.data_mut.resource_set { fetch_result_futures = t })

  abbrev pub with_results : Caller host → host.slots.Table (FetchResult host) → Caller host
  with_results c t = with_resources c (record c.data_mut.resource_set { fetch_results = t })

  abbrev pub with_bodies : Caller host → host.slots.Table (Body host) → Caller host
  with_bodies c t = with_resources c (record c.data_mut.resource_set { http_bodies = t })

  abbrev pub with_frames :
      Caller host → host.slots.Table (Option (Result Bytes HttpStreamError)) → Caller host
  with_frames c t = with_resources c (record c.data_mut.resource_set { http_frames = t })

  unfoldable pub fetch_poll_answer : Caller host → ℕ → PollResult → Option (Caller host × ℕ)
  unfolding respond
  fetch_poll_answer c result_addr result =
      respond c (as_u64 FetchResultPollResultCode.ok)
        (as_u64 FetchResultPollResultCode.failed_to_access_memory)
        (as_u64 FetchResultPollResultCode.result_addr_out_of_memory_bounds)
        (λ view. write_struct view result_addr (poll_result_bytes result))

  -- A future that is ready leaves its table, and its result enters that of the results.
  unfoldable pub fetch_polled :
      Caller host → ℕ → ℕ → host.FetchFuture × Poll (FetchResult host) → Option (Caller host × ℕ)
  unfolding fetch_poll_answer
  fetch_polled c resource_id result_addr (future, pending) =
      fetch_poll_answer
        (with_futures c
          (host.slots.set resource_id future c.data_mut.resource_set.fetch_result_futures))
        result_addr (record { tag = 1; resource_id = 0 })
  fetch_polled c resource_id result_addr (future, ready result) =
      let (rest, taken) =
        host.slots.remove resource_id
          (host.slots.set resource_id future c.data_mut.resource_set.fetch_result_futures) in
      elim taken [
        | none ↦
            some (
              with_futures c rest,
              as_u64 FetchResultPollResultCode.internal_runtime_assertion_error,
            )
        | some _ ↦
            (let (filled, id) = host.slots.insert result c.data_mut.resource_set.fetch_results in
              fetch_poll_answer (with_results (with_futures c rest) filled) result_addr
                (record { tag = 0; resource_id = id }))
      ]

  unfoldable pub fx_fetch_result_future_poll : Caller host → ℕ → ℕ → Option (Caller host × ℕ)
  unfolding fetch_polled
  fx_fetch_result_future_poll c resource_id result_addr = elim c.data_mut.waker [
    | none ↦ some (c, as_u64 FetchResultPollResultCode.internal_runtime_assertion_error)
    | some waker ↦ elim (host.slots.get resource_id c.data_mut.resource_set.fetch_result_futures) [
      | none ↦ some (c, as_u64 FetchResultPollResultCode.resource_not_found)
      | some future ↦ fetch_polled c resource_id result_addr (host.poll_fetch waker future)
    ]
  ]

  -- The body of a response becomes a resource of the host, and the message holds its id.
  unfoldable pub result_field : Caller host → FetchResult host → Caller host × FetchResultField
  unfolding error_field
  result_field c (ok response) =
      let (bodies, id) = host.slots.insert response.body c.data_mut.resource_set.http_bodies in
      (
        with_bodies c bodies,
        ok (record { status = response.status; headers = response.headers; body = id }),
      )
  result_field c (err e) = (c, err (error_field e))

  -- A message becomes a resource, whose id and length are the answer.
  unfoldable pub send_bytes :
      Caller host → (success no_memory beyond : ℕ) → ℕ → Bytes → Option (Caller host × ℕ)
  unfolding respond
  send_bytes c success no_memory beyond result_addr bytes =
      let (filled, id) = host.slots.insert bytes c.data_mut.resource_set.bytes in
      respond (with_bytes c filled) success no_memory beyond (λ view.
        write_struct view result_addr
          (serialize_result_bytes (record { bytes_resource_id = id; bytes_length = length bytes })))

  unfoldable pub fx_fetch_result_serialize : Caller host → ℕ → ℕ → Option (Caller host × ℕ)
  unfolding result_field send_bytes
  fx_fetch_result_serialize c resource_id result_addr =
      let (rest, taken) = host.slots.remove resource_id c.data_mut.resource_set.fetch_results in
      elim taken [
        | none ↦
            some (with_results c rest, as_u64 FetchResultSerializeResultCode.resource_not_found)
        | some fetch_result ↦
            (let (c', field) = result_field (with_results c rest) fetch_result in
              send_bytes c' (as_u64 FetchResultSerializeResultCode.ok)
                (as_u64 FetchResultSerializeResultCode.failed_to_access_memory)
                (as_u64 FetchResultSerializeResultCode.result_addr_out_of_memory_bounds) result_addr
                (host.write_fetch_result field))
      ]

  unfoldable pub body_poll_answer : Caller host → ℕ → PollResult → Option (Caller host × ℕ)
  unfolding respond
  body_poll_answer c result_addr result =
      respond c (as_u64 AbiOperationResultCode.ok)
        (as_u64 AbiOperationResultCode.failed_to_access_memory)
        (as_u64 AbiOperationResultCode.result_addr_out_of_memory_bounds)
        (λ view. write_struct view result_addr (poll_result_bytes result))

  -- A frame that is ready becomes a resource; the end of the stream is such a frame.
  unfoldable pub body_polled :
      Caller host
      → ℕ
      → ℕ
      → Body host × Poll (Option (Result Bytes HttpStreamError))
      → Option (Caller host × ℕ)
  unfolding body_poll_answer
  body_polled c resource_id result_addr (body, pending) =
      body_poll_answer
        (with_bodies c (host.slots.set resource_id body c.data_mut.resource_set.http_bodies))
        result_addr (record { tag = 1; resource_id = 0 })
  body_polled c resource_id result_addr (body, ready frame) =
      let (filled, id) = host.slots.insert frame c.data_mut.resource_set.http_frames in
      body_poll_answer
        (with_frames
          (with_bodies c (host.slots.set resource_id body c.data_mut.resource_set.http_bodies))
          filled)
        result_addr (record { tag = 0; resource_id = id })

  unfoldable pub fx_http_body_poll_frame : Caller host → ℕ → ℕ → Option (Caller host × ℕ)
  unfolding body_polled body_poll_answer poll_body
  fx_http_body_poll_frame c resource_id result_addr = elim c.data_mut.waker [
    | none ↦ some (c, as_u64 AbiOperationResultCode.internal_runtime_assertion_error)
    | some waker ↦ elim (host.slots.get resource_id c.data_mut.resource_set.http_bodies) [
      | none ↦ body_poll_answer c result_addr (record { tag = 2; resource_id = 0 })
      | some body ↦ and_then (poll_body host waker body) (body_polled c resource_id result_addr)
    ]
  ]

  unfoldable pub fx_http_body_drop : Caller host → ℕ → Caller host
  fx_http_body_drop c resource_id =
      with_bodies c (host.slots.remove resource_id c.data_mut.resource_set.http_bodies).0

  unfoldable pub fx_http_frame_serialize : Caller host → ℕ → ℕ → Option (Caller host × ℕ)
  unfolding frame_field send_bytes
  fx_http_frame_serialize c resource_id result_addr =
      let (rest, taken) = host.slots.remove resource_id c.data_mut.resource_set.http_frames in
      elim taken [
        | none ↦ some (with_frames c rest, as_u64 HttpFrameSerializeResultCode.not_found)
        | some frame ↦
            send_bytes (with_frames c rest) (as_u64 HttpFrameSerializeResultCode.ok)
              (as_u64 HttpFrameSerializeResultCode.failed_to_access_memory)
              (as_u64 HttpFrameSerializeResultCode.result_addr_out_of_memory_bounds) result_addr
              (host.write_frame (frame_field frame))
      ]
