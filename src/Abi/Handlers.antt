-- ===== src/Abi/Handlers.antt =====
-- The host functions of fx-runtime/src/function/abi/mod.rs on bytes, timers and request headers. A
-- result `none` is a panic. Each takes the instance as it is called, and gives it as it is left
-- with the number that is returned.
pub mod Http
pub mod Services
pub mod Fetch
use fx.Prelude.{ℕ, Option, none, some, Result, ok, err, Poll, pending, ready, length, List, [], ◌∷◌}
use fx.Abi.Memory.{
  Bytes, Export, linear, FunctionMemoryAccessError, out_of_bounds, from_caller, copy_from_slice,
  write_struct,
}
use fx.Abi.Layout.{word_bytes}
use fx.Abi.Codes.{as_u64}
use fx.Abi.Codes.Resources.{
  ResourceMoveFromHostResult, BytesLenResultCode, UnitFuturePollResultCode,
  FetchRequestHeaderSerializeResultCode, resource_move_from_host_code, bytes_len_code,
  unit_future_poll_code, fetch_request_header_serialize_code,
}
use fx.Abi.State.{Host, HttpRequest, BodyField, Caller, FunctionResources, FunctionInstanceState}

-- `None` is the empty body, and an id stands for a body of the host.
abbrev pub body_field : Option ℕ → BodyField
body_field none = BodyField.empty
body_field (some id) = BodyField.host_resource id

module _ {host : Host} where
  abbrev pub with_resources : Caller host → FunctionResources host → Caller host
  with_resources c resources = record c {
    data_mut = record c.data_mut { resource_set = resources };
  }

  abbrev pub with_bytes : Caller host → host.slots.Table Bytes → Caller host
  with_bytes c t = with_resources c (record c.data_mut.resource_set { bytes = t })

  abbrev pub with_unit_futures : Caller host → host.slots.Table host.UnitFuture → Caller host
  with_unit_futures c t = with_resources c (record c.data_mut.resource_set { unit_futures = t })

  abbrev pub with_headers : Caller host → host.slots.Table (HttpRequest (Option ℕ)) → Caller host
  with_headers c t = with_resources c (record c.data_mut.resource_set { fetch_request_headers = t })

  -- The end that every handler with a result has: the memory is taken from the caller and written,
  -- and the outcome is turned into a code.
  module _ (c : Caller host) (success no_memory beyond : ℕ) where
    abbrev pub written : Option (Result Bytes FunctionMemoryAccessError) → Option (Caller host × ℕ)
    written none = none
    written (some (ok view)) = some (record c { memory = linear view }, success)
    written (some (err out_of_bounds)) = some (c, beyond)

    unfoldable pub respond :
        (Bytes → Option (Result Bytes FunctionMemoryAccessError)) → Option (Caller host × ℕ)
    respond write = elim (from_caller c.memory) [
      | ok view ↦ written (write view)
      | err e ↦ some (c, no_memory)
    ]

  unfoldable pub fx_bytes_len_handler : Caller host → ℕ → ℕ → Option (Caller host × ℕ)
  unfolding respond
  fx_bytes_len_handler c resource_id ptr =
      elim (host.slots.get resource_id c.data_mut.resource_set.bytes) [
        | none ↦ some (c, as_u64 BytesLenResultCode.resource_not_found)
        | some v ↦
            respond c (as_u64 BytesLenResultCode.ok) (as_u64 BytesLenResultCode.resource_not_found)
              (as_u64 BytesLenResultCode.argument_out_of_memory_bounds)
              (λ view. write_struct view ptr (word_bytes (length v)))
      ]

  -- The bytes leave the table before the memory is looked at.
  unfoldable pub fx_bytes_move_handler : Caller host → ℕ → ℕ → Option (Caller host × ℕ)
  unfolding respond
  fx_bytes_move_handler c resource_id ptr =
      let (rest, taken) = host.slots.remove resource_id c.data_mut.resource_set.bytes in
      elim taken [
        | none ↦ some (with_bytes c rest, as_u64 ResourceMoveFromHostResult.resource_not_found)
        | some v ↦
            respond (with_bytes c rest) (as_u64 ResourceMoveFromHostResult.ok)
              (as_u64 ResourceMoveFromHostResult.failed_to_access_memory)
              (as_u64 ResourceMoveFromHostResult.argument_out_of_memory_bounds)
              (λ view. copy_from_slice view ptr (length v) v)
      ]

  unfoldable pub fx_fetch_request_header_serialize_handler :
      Caller host → ℕ → ℕ → Option (Caller host × ℕ)
  unfolding respond
  fx_fetch_request_header_serialize_handler c resource_id ptr =
      let (rest, taken) =
        host.slots.remove resource_id c.data_mut.resource_set.fetch_request_headers in
      elim taken [
        | none ↦
            some
              (with_headers c rest, as_u64 FetchRequestHeaderSerializeResultCode.resource_not_found)
        | some request ↦
            (let (filled, id) =
                host.slots.insert
                  (host.write_request (record {
                    uri = request.uri;
                    method = request.method;
                    headers = request.headers;
                    body = body_field request.body;
                  }))
                  c.data_mut.resource_set.bytes in
              respond (with_bytes (with_headers c rest) filled)
                (as_u64 FetchRequestHeaderSerializeResultCode.ok)
                (as_u64 FetchRequestHeaderSerializeResultCode.failed_to_access_memory)
                (as_u64 FetchRequestHeaderSerializeResultCode.argument_out_of_memory_bounds)
                (λ view. write_struct view ptr (word_bytes id)))
      ]

  unfoldable pub fx_sleep_handler : Caller host → ℕ → Caller host × ℕ
  fx_sleep_handler c sleep_millis =
      let (filled, id) =
        host.slots.insert (host.sleep sleep_millis) c.data_mut.resource_set.unit_futures in
      (with_unit_futures c filled, id)

  -- The end of a poll: the tag is written, 1 for pending and 0 for ready.
  unfoldable pub unit_poll_answer : Caller host → ℕ → ℕ → Option (Caller host × ℕ)
  unfolding respond
  unit_poll_answer c result_addr tag =
      respond c (as_u64 UnitFuturePollResultCode.ok)
        (as_u64 UnitFuturePollResultCode.failed_to_access_memory)
        (as_u64 UnitFuturePollResultCode.result_addr_out_of_memory_bounds)
        (λ view. write_struct view result_addr (tag ∷ []))

  -- What the future answered; one that is ready leaves the table.
  unfoldable pub unit_polled :
      Caller host → ℕ → ℕ → host.UnitFuture × Poll (Unit {0}) → Option (Caller host × ℕ)
  unfolding unit_poll_answer
  unit_polled c resource_id result_addr (future, pending) =
      unit_poll_answer
        (with_unit_futures c
          (host.slots.set resource_id future c.data_mut.resource_set.unit_futures))
        result_addr 1
  unit_polled c resource_id result_addr (future, ready tt) =
      let (rest, taken) =
        host.slots.remove resource_id
          (host.slots.set resource_id future c.data_mut.resource_set.unit_futures) in
      elim taken [
        | none ↦ some (
          with_unit_futures c rest,
          as_u64 UnitFuturePollResultCode.internal_runtime_assertion_error,
        )
        | some _ ↦ unit_poll_answer (with_unit_futures c rest) result_addr 0
      ]

  unfoldable pub fx_unit_future_poll : Caller host → ℕ → ℕ → Option (Caller host × ℕ)
  unfolding unit_polled
  fx_unit_future_poll c resource_id result_addr = elim c.data_mut.waker [
    | none ↦ some (c, as_u64 UnitFuturePollResultCode.internal_runtime_assertion_error)
    | some waker ↦ elim (host.slots.get resource_id c.data_mut.resource_set.unit_futures) [
      | none ↦ some (c, as_u64 UnitFuturePollResultCode.resource_not_found)
      | some future ↦ unit_polled c resource_id result_addr (host.poll_unit waker future)
    ]
  ]
