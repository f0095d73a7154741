-- ===== src/Abi/Codes/Fetches.antt =====
-- The codes of the functions on fetch results and frames.
use fx.Prelude.{ℕ, ◌≡◌, refl, Option, none, some, ◌==◌, nat_eq, if◌then◌else◌}
use fx.Abi.Codes.{ResultCode}

pub data FetchResultPollResultCode : Type 0 where
  ok failed_to_access_memory result_addr_out_of_memory_bounds internal_runtime_assertion_error
        resource_not_found :
      FetchResultPollResultCode

abbrev pub fetch_result_poll_number : FetchResultPollResultCode → ℕ
fetch_result_poll_number FetchResultPollResultCode.ok = 0
fetch_result_poll_number FetchResultPollResultCode.failed_to_access_memory = 1
fetch_result_poll_number FetchResultPollResultCode.result_addr_out_of_memory_bounds = 2
fetch_result_poll_number FetchResultPollResultCode.internal_runtime_assertion_error = 3
fetch_result_poll_number FetchResultPollResultCode.resource_not_found = 4

abbrev pub fetch_result_poll_of : ℕ → Option FetchResultPollResultCode
fetch_result_poll_of n =
    if n == 0
    then some FetchResultPollResultCode.ok
    else if n == 1
    then some FetchResultPollResultCode.failed_to_access_memory
    else if n == 2
    then some FetchResultPollResultCode.result_addr_out_of_memory_bounds
    else if n == 3
    then some FetchResultPollResultCode.internal_runtime_assertion_error
    else if n == 4
    then some FetchResultPollResultCode.resource_not_found
    else none

abbrev pub fetch_result_poll_sent :
    (c : FetchResultPollResultCode) → fetch_result_poll_of (fetch_result_poll_number c) ≡ some c
fetch_result_poll_sent FetchResultPollResultCode.ok = refl
fetch_result_poll_sent FetchResultPollResultCode.failed_to_access_memory = refl
fetch_result_poll_sent FetchResultPollResultCode.result_addr_out_of_memory_bounds = refl
fetch_result_poll_sent FetchResultPollResultCode.internal_runtime_assertion_error = refl
fetch_result_poll_sent FetchResultPollResultCode.resource_not_found = refl

instance abbrev pub fetch_result_poll_code : ResultCode FetchResultPollResultCode
fetch_result_poll_code = record {
  as_u64 = fetch_result_poll_number;
  try_from = fetch_result_poll_of;
  sent = fetch_result_poll_sent;
}

pub data FetchResultSerializeResultCode : Type 0 where
  ok failed_to_access_memory result_addr_out_of_memory_bounds internal_runtime_assertion_error
        resource_not_found :
      FetchResultSerializeResultCode

abbrev pub fetch_result_serialize_number : FetchResultSerializeResultCode → ℕ
fetch_result_serialize_number FetchResultSerializeResultCode.ok = 0
fetch_result_serialize_number FetchResultSerializeResultCode.failed_to_access_memory = 1
fetch_result_serialize_number FetchResultSerializeResultCode.result_addr_out_of_memory_bounds = 2
fetch_result_serialize_number FetchResultSerializeResultCode.internal_runtime_assertion_error = 3
fetch_result_serialize_number FetchResultSerializeResultCode.resource_not_found = 4

abbrev pub fetch_result_serialize_of : ℕ → Option FetchResultSerializeResultCode
fetch_result_serialize_of n =
    if n == 0
    then some FetchResultSerializeResultCode.ok
    else if n == 1
    then some FetchResultSerializeResultCode.failed_to_access_memory
    else if n == 2
    then some FetchResultSerializeResultCode.result_addr_out_of_memory_bounds
    else if n == 3
    then some FetchResultSerializeResultCode.internal_runtime_assertion_error
    else if n == 4
    then some FetchResultSerializeResultCode.resource_not_found
    else none

abbrev pub fetch_result_serialize_sent :
    (c : FetchResultSerializeResultCode)
    → fetch_result_serialize_of (fetch_result_serialize_number c) ≡ some c
fetch_result_serialize_sent FetchResultSerializeResultCode.ok = refl
fetch_result_serialize_sent FetchResultSerializeResultCode.failed_to_access_memory = refl
fetch_result_serialize_sent FetchResultSerializeResultCode.result_addr_out_of_memory_bounds = refl
fetch_result_serialize_sent FetchResultSerializeResultCode.internal_runtime_assertion_error = refl
fetch_result_serialize_sent FetchResultSerializeResultCode.resource_not_found = refl

instance abbrev pub fetch_result_serialize_code : ResultCode FetchResultSerializeResultCode
fetch_result_serialize_code = record {
  as_u64 = fetch_result_serialize_number;
  try_from = fetch_result_serialize_of;
  sent = fetch_result_serialize_sent;
}

pub data HttpFrameSerializeResultCode : Type 0 where
  ok not_found failed_to_access_memory result_addr_out_of_memory_bounds :
      HttpFrameSerializeResultCode

abbrev pub http_frame_serialize_number : HttpFrameSerializeResultCode → ℕ
http_frame_serialize_number HttpFrameSerializeResultCode.ok = 0
http_frame_serialize_number HttpFrameSerializeResultCode.not_found = 1
http_frame_serialize_number HttpFrameSerializeResultCode.failed_to_access_memory = 2
http_frame_serialize_number HttpFrameSerializeResultCode.result_addr_out_of_memory_bounds = 3

abbrev pub http_frame_serialize_of : ℕ → Option HttpFrameSerializeResultCode
http_frame_serialize_of n =
    if n == 0
    then some HttpFrameSerializeResultCode.ok
    else if n == 1
    then some HttpFrameSerializeResultCode.not_found
    else if n == 2
    then some HttpFrameSerializeResultCode.failed_to_access_memory
    else if n == 3
    then some HttpFrameSerializeResultCode.result_addr_out_of_memory_bounds
    else none

abbrev pub http_frame_serialize_sent :
    (c : HttpFrameSerializeResultCode)
    → http_frame_serialize_of (http_frame_serialize_number c) ≡ some c
http_frame_serialize_sent HttpFrameSerializeResultCode.ok = refl
http_frame_serialize_sent HttpFrameSerializeResultCode.not_found = refl
http_frame_serialize_sent HttpFrameSerializeResultCode.failed_to_access_memory = refl
http_frame_serialize_sent HttpFrameSerializeResultCode.result_addr_out_of_memory_bounds = refl

instance abbrev pub http_frame_serialize_code : ResultCode HttpFrameSerializeResultCode
http_frame_serialize_code = record {
  as_u64 = http_frame_serialize_number;
  try_from = http_frame_serialize_of;
  sent = http_frame_serialize_sent;
}
