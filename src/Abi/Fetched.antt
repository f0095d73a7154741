-- ===== src/Abi/Fetched.antt =====
-- The result of a fetch, read by a function: `FetchResultFuture::poll` of fx-sdk/src/api/http.rs over
-- the host functions, against the host's own future.
pub mod Polled
use fx.Prelude.{
  ℕ, ◌+◌, ◌≤◌, ◌<◌, ◌≡◌, refl, Option, none, some, Result, ok, err, Poll, pending, ready, length,
  arith, ap, ◌∙◌,
}
use fx.Abi.Memory.{Bytes, u64_mod, overwrite}
use fx.Abi.Memory.Bounds.{length-overwrite}
use fx.Abi.State.{
  Host, SlotLaws, FunctionInstanceState, HttpResponse, FetchResult, FetchResultError,
  FetchResultField, Caller, Body,
}
use fx.Abi.Handlers.{with_bytes}
use fx.Abi.Handlers.Http.{
  with_bodies, with_futures, with_results, result_field, error_field, fx_fetch_result_serialize,
}
use fx.Abi.Sdk.{zeros}
use fx.Abi.Sdk.Http.{FetchError, fetch_error, response_of, receive_result, poll_fetch}
use fx.Abi.Calls.{at}
use fx.Abi.Calls.Http.{tagged, located, send_bytes-sent, fetch_poll-ready}
use fx.Abi.Stream.{tagged_at, located_at, receive_bytes-found}

-- The error that a function is to see for each error of the host: what the function did wrong is an
-- error of its SDK, and what failed inside the runtime is one error.
abbrev pub seen_error : FetchResultError → FetchError
seen_error FetchResultError.failed_to_read_request = FetchError.internal_sdk_error
seen_error FetchResultError.bad_request = FetchError.internal_sdk_error
seen_error FetchResultError.body_host_resource_id_not_found = FetchError.internal_sdk_error
seen_error FetchResultError.connection_failed = FetchError.connection_failed
seen_error FetchResultError.connection_timeout = FetchError.connection_timeout
seen_error FetchResultError.response_timeout = FetchError.response_timeout
seen_error FetchResultError.function_not_found = FetchError.function_not_found
seen_error FetchResultError.function_instantiation_error = FetchError.function_instantiation_error
seen_error FetchResultError.function_panicked = FetchError.function_panicked
seen_error FetchResultError.function_crashed = FetchError.function_crashed
seen_error FetchResultError.function_busy = FetchError.function_busy
seen_error FetchResultError.function_incorrect_response = FetchError.function_incorrect_response
seen_error FetchResultError.runtime_shutdown = FetchError.runtime_shutdown
seen_error FetchResultError.internal_runtime_assertion_error = FetchError.runtime_internal_error
seen_error FetchResultError.internal_runtime_timeout_error = FetchError.runtime_internal_error

error-seen : (e : FetchResultError) → fetch_error (error_field e) ≡ seen_error e
unfolding fetch_error error_field
error-seen e = ground arith

module _ {host : Host} (s : FunctionInstanceState host) where
  -- The bodies after a result is taken apart, and the result as the function is to see it.
  abbrev pub bodies_after : FetchResult host → host.slots.Table (Body host)
  bodies_after (ok response) = (host.slots.insert response.body s.resource_set.http_bodies).0
  bodies_after (err e) = s.resource_set.http_bodies

  abbrev pub seen_result : FetchResult host → Result (HttpResponse ℕ) FetchError
  seen_result (ok response) = ok (record {
    status = response.status;
    headers = response.headers;
    body = (host.slots.insert response.body s.resource_set.http_bodies).1;
  })
  seen_result (err e) = err (seen_error e)

  abbrev pub field_after : FetchResult host → FetchResultField
  field_after (ok response) = ok (record {
    status = response.status;
    headers = response.headers;
    body = (host.slots.insert response.body s.resource_set.http_bodies).1;
  })
  field_after (err e) = err (error_field e)

  pub response-field : (r : FetchResult host) → response_of (field_after r) ≡ seen_result r
  unfolding response_of
  response-field (ok response) = refl
  response-field (err e) = ap err (error-seen e)

  pub result_field-at :
      (view : Bytes) (r : FetchResult host)
      → result_field (at view s) r ≡ (with_bodies (at view s) (bodies_after r), field_after r)
  unfolding result_field
  result_field-at view (ok response) = refl
  result_field-at view (err e) = refl
