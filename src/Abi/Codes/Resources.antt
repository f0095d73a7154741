-- ===== src/Abi/Codes/Resources.antt =====
-- The codes of the functions on bytes and timers.
use fx.Prelude.{ℕ, ◌≡◌, refl, Option, none, some, ◌==◌, nat_eq, if◌then◌else◌}
use fx.Abi.Codes.{ResultCode}

pub data ResourceMoveFromHostResult : Type 0 where
  ok failed_to_access_memory argument_out_of_memory_bounds resource_not_found :
      ResourceMoveFromHostResult

abbrev pub resource_move_from_host_number : ResourceMoveFromHostResult → ℕ
resource_move_from_host_number ResourceMoveFromHostResult.ok = 0
resource_move_from_host_number ResourceMoveFromHostResult.failed_to_access_memory = 1
resource_move_from_host_number ResourceMoveFromHostResult.argument_out_of_memory_bounds = 2
resource_move_from_host_number ResourceMoveFromHostResult.resource_not_found = 3

abbrev pub resource_move_from_host_of : ℕ → Option ResourceMoveFromHostResult
resource_move_from_host_of n =
    if n == 0
    then some ResourceMoveFromHostResult.ok
    else if n == 1
    then some ResourceMoveFromHostResult.failed_to_access_memory
    else if n == 2
    then some ResourceMoveFromHostResult.argument_out_of_memory_bounds
    else if n == 3
    then some ResourceMoveFromHostResult.resource_not_found
    else none

abbrev pub resource_move_from_host_sent :
    (c : ResourceMoveFromHostResult)
    → resource_move_from_host_of (resource_move_from_host_number c) ≡ some c
resource_move_from_host_sent ResourceMoveFromHostResult.ok = refl
resource_move_from_host_sent ResourceMoveFromHostResult.failed_to_access_memory = refl
resource_move_from_host_sent ResourceMoveFromHostResult.argument_out_of_memory_bounds = refl
resource_move_from_host_sent ResourceMoveFromHostResult.resource_not_found = refl

instance abbrev pub resource_move_from_host_code : ResultCode ResourceMoveFromHostResult
resource_move_from_host_code = record {
  as_u64 = resource_move_from_host_number;
  try_from = resource_move_from_host_of;
  sent = resource_move_from_host_sent;
}

pub data BytesLenResultCode : Type 0 where
  ok resource_not_found failed_to_access_memory argument_out_of_memory_bounds : BytesLenResultCode

abbrev pub bytes_len_number : BytesLenResultCode → ℕ
bytes_len_number BytesLenResultCode.ok = 0
bytes_len_number BytesLenResultCode.resource_not_found = 1
bytes_len_number BytesLenResultCode.failed_to_access_memory = 2
bytes_len_number BytesLenResultCode.argument_out_of_memory_bounds = 3

abbrev pub bytes_len_of : ℕ → Option BytesLenResultCode
bytes_len_of n =
    if n == 0
    then some BytesLenResultCode.ok
    else if n == 1
    then some BytesLenResultCode.resource_not_found
    else if n == 2
    then some BytesLenResultCode.failed_to_access_memory
    else if n == 3
    then some BytesLenResultCode.argument_out_of_memory_bounds
    else none

abbrev pub bytes_len_sent : (c : BytesLenResultCode) → bytes_len_of (bytes_len_number c) ≡ some c
bytes_len_sent BytesLenResultCode.ok = refl
bytes_len_sent BytesLenResultCode.resource_not_found = refl
bytes_len_sent BytesLenResultCode.failed_to_access_memory = refl
bytes_len_sent BytesLenResultCode.argument_out_of_memory_bounds = refl

instance abbrev pub bytes_len_code : ResultCode BytesLenResultCode
bytes_len_code = record {
  as_u64 = bytes_len_number;
  try_from = bytes_len_of;
  sent = bytes_len_sent;
}

pub data UnitFuturePollResultCode : Type 0 where
  ok failed_to_access_memory result_addr_out_of_memory_bounds internal_runtime_assertion_error
        resource_not_found :
      UnitFuturePollResultCode

abbrev pub unit_future_poll_number : UnitFuturePollResultCode → ℕ
unit_future_poll_number UnitFuturePollResultCode.ok = 0
unit_future_poll_number UnitFuturePollResultCode.failed_to_access_memory = 1
unit_future_poll_number UnitFuturePollResultCode.result_addr_out_of_memory_bounds = 2
unit_future_poll_number UnitFuturePollResultCode.internal_runtime_assertion_error = 3
unit_future_poll_number UnitFuturePollResultCode.resource_not_found = 4

abbrev pub unit_future_poll_of : ℕ → Option UnitFuturePollResultCode
unit_future_poll_of n =
    if n == 0
    then some UnitFuturePollResultCode.ok
    else if n == 1
    then some UnitFuturePollResultCode.failed_to_access_memory
    else if n == 2
    then some UnitFuturePollResultCode.result_addr_out_of_memory_bounds
    else if n == 3
    then some UnitFuturePollResultCode.internal_runtime_assertion_error
    else if n == 4
    then some UnitFuturePollResultCode.resource_not_found
    else none

abbrev pub unit_future_poll_sent :
    (c : UnitFuturePollResultCode) → unit_future_poll_of (unit_future_poll_number c) ≡ some c
unit_future_poll_sent UnitFuturePollResultCode.ok = refl
unit_future_poll_sent UnitFuturePollResultCode.failed_to_access_memory = refl
unit_future_poll_sent UnitFuturePollResultCode.result_addr_out_of_memory_bounds = refl
unit_future_poll_sent UnitFuturePollResultCode.internal_runtime_assertion_error = refl
unit_future_poll_sent UnitFuturePollResultCode.resource_not_found = refl

instance abbrev pub unit_future_poll_code : ResultCode UnitFuturePollResultCode
unit_future_poll_code = record {
  as_u64 = unit_future_poll_number;
  try_from = unit_future_poll_of;
  sent = unit_future_poll_sent;
}

pub data FetchRequestHeaderSerializeResultCode : Type 0 where
  ok resource_not_found failed_to_access_memory argument_out_of_memory_bounds :
      FetchRequestHeaderSerializeResultCode

abbrev pub fetch_request_header_serialize_number : FetchRequestHeaderSerializeResultCode → ℕ
fetch_request_header_serialize_number FetchRequestHeaderSerializeResultCode.ok = 0
fetch_request_header_serialize_number FetchRequestHeaderSerializeResultCode.resource_not_found = 1
fetch_request_header_serialize_number
      FetchRequestHeaderSerializeResultCode.failed_to_access_memory =
    2
fetch_request_header_serialize_number
      FetchRequestHeaderSerializeResultCode.argument_out_of_memory_bounds =
    3

abbrev pub fetch_request_header_serialize_of : ℕ → Option FetchRequestHeaderSerializeResultCode
fetch_request_header_serialize_of n =
    if n == 0
    then some FetchRequestHeaderSerializeResultCode.ok
    else if n == 1
    then some FetchRequestHeaderSerializeResultCode.resource_not_found
    else if n == 2
    then some FetchRequestHeaderSerializeResultCode.failed_to_access_memory
    else if n == 3
    then some FetchRequestHeaderSerializeResultCode.argument_out_of_memory_bounds
    else none

abbrev pub fetch_request_header_serialize_sent :
    (c : FetchRequestHeaderSerializeResultCode)
    → fetch_request_header_serialize_of (fetch_request_header_serialize_number c) ≡ some c
fetch_request_header_serialize_sent FetchRequestHeaderSerializeResultCode.ok = refl
fetch_request_header_serialize_sent FetchRequestHeaderSerializeResultCode.resource_not_found = refl
fetch_request_header_serialize_sent FetchRequestHeaderSerializeResultCode.failed_to_access_memory =
    refl
fetch_request_header_serialize_sent
      FetchRequestHeaderSerializeResultCode.argument_out_of_memory_bounds =
    refl

instance abbrev pub fetch_request_header_serialize_code :
    ResultCode FetchRequestHeaderSerializeResultCode
fetch_request_header_serialize_code = record {
  as_u64 = fetch_request_header_serialize_number;
  try_from = fetch_request_header_serialize_of;
  sent = fetch_request_header_serialize_sent;
}
