-- ===== src/Abi/Tests.antt =====
-- The theorems on the interface at concrete calls.
mod Machine
use mathlib.Core.List.{Permᴰ}
use mathlib.Core.Option.{some-injective}
use fx.Prelude.{
  ℕ, zero, suc, subst, ◌+◌, ◌≤◌, ◌<◌, ◌≡◌, ◌≢◌, refl, inl, inr, Bool, true, Option, none, some,
  String, Result, ok, err, Poll, pending, ready, List, [], ◌∷◌, length, arith, string_eq, leb,
  if◌then◌else◌, ◌==◌,
}
use fx.Prelude.Dict.{lookup}
use fx.Metrics.{new_state}
use fx.Abi.Memory.{
  Bytes, linear, take, drop, overwrite, slice, write_struct, copy_from_slice, from_caller,
  out_of_bounds,
}
use fx.Abi.Memory.Bounds.{slice_bounds, slice-write_struct}
use fx.Abi.Layout.{word_bytes}
use fx.Abi.State.{
  FunctionInstanceState, HttpBody, HttpRequest, BodyField, Caller, HeaderFields, RequestFields,
  FetchResultError, external_request, data_of, HttpStreamError, FetchPlan,
}
use fx.Abi.Handlers.{with_bytes}
use fx.Abi.Handlers.Http.{
  with_bodies, with_frames, with_futures, with_results, poll_body, frame_field,
}
use fx.Abi.Handlers.Services.{metric_key_of}
use fx.Abi.Handlers.Fetch.{
  read_fields, read_header, request_uri, request_method, request_host, outgoing_request, plan_fetch,
  fx_fetch_handler, take_body, plan_for,
}
use fx.Abi.Sdk.{zeros, into_vec}
use fx.Abi.Sdk.Http.{poll_next, poll_fetch}
use fx.Abi.Sdk.Services.{env_get}
use fx.Abi.Calls.{at}
use fx.Abi.Calls.Services.{Apart, env_get-lookup}
use fx.Abi.Transfer.{into_vec-found}
use fx.Abi.Stream.Next.{seen, poll_next-ready}
use fx.Abi.Fetched.{bodies_after, seen_result}
use fx.Abi.Fetched.Polled.{poll_fetch-ready}
use fx.Abi.Labels.{metric_key_of-Perm}
use fx.Abi.Fetch.{AppendLaws}
use fx.Abi.Fetch.Outcome.{fx_fetch_handler-takes}
use fx.Abi.Total.{Answers, StreamReturns, IsAddressable}
use fx.Abi.Total.All.{HostCall, run, run-Answers}
use fx.Abi.Tests.Machine.{machine, listed, listed_laws, hello, fields}

abbrev room : Bytes
room = zeros 64

abbrev state : FunctionInstanceState machine
state = record {
  waker = some 1;
  resource_set = record {
    bytes = some (5 ∷ 6 ∷ 7 ∷ []) ∷ [];
    fetch_request_headers = [];
    unit_futures = [];
    fetch_result_futures = some (external_request (err FetchResultError.bad_request)) ∷ [];
    fetch_results = [];
    http_bodies = some (HttpBody.stream ((7 ∷ 8 ∷ []) ∷ [])) ∷ [];
    http_frames = [];
  };
  metrics = new_state;
  env = ("PORT", "8") ∷ [];
  functions = ("billing", "fn-1") ∷ [];
  tasks_background = [];
  function_id = "fn-0";
}

abbrev buffer : ℕ → ℕ
buffer n = 48

slice_bounds_example : slice (9 ∷ 8 ∷ 7 ∷ []) 1 18446744073709551615 ≡ (
    if leb (1 + 18446744073709551615) 3
    then ok (take 18446744073709551615 (drop 1 (9 ∷ 8 ∷ 7 ∷ [])))
    else err out_of_bounds)
slice_bounds_example =
    slice_bounds (9 ∷ 8 ∷ 7 ∷ []) 1 18446744073709551615 (omega arith) (omega arith) (omega arith)

abbrev four : Bytes
four = 9 ∷ 8 ∷ 7 ∷ 6 ∷ []

abbrev after : Bytes
after = 9 ∷ 1 ∷ 2 ∷ 6 ∷ []

slice-write_struct_example :
    (slice after 1 2 ≡ ok (1 ∷ 2 ∷ []))
    × (length after ≡ length four)
    × (slice after 3 1 ≡ slice four 3 1)
unfolding write_struct copy_from_slice
slice-write_struct_example =
    slice-write_struct four 1 (1 ∷ 2 ∷ []) 3 1 (omega arith) (omega arith) (omega arith)
      (omega arith) (omega arith) (inr (omega arith)) after refl

into_vec-found_example :
    (view' : Bytes) × (into_vec 0 buffer (at room state) 0
      ≡ some (
        with_bytes (at view' state) (listed.remove 0 state.resource_set.bytes).0,
        ok (5 ∷ 6 ∷ 7 ∷ []),
      ))
    × (length view' ≡ length room)
into_vec-found_example =
    into_vec-found listed_laws 0 buffer room state (omega arith) 0 (5 ∷ 6 ∷ 7 ∷ []) refl
      (omega arith) (omega arith)

poll_next-ready_example :
    (view' : Bytes) × (length view' ≡ length room)
    × (poll_next 0 16 buffer (at room state) 0
        ≡ some (
          with_bytes
              (with_frames
                (with_bodies
                  (at view' state)
                  (listed.set 0 (HttpBody.stream []) state.resource_set.http_bodies))
                (none ∷ []))
              (some (5 ∷ 6 ∷ 7 ∷ []) ∷ none ∷ []),
          ready (some (ok (7 ∷ 8 ∷ []))),
        ))
unfolding poll_body frame_field
poll_next-ready_example =
    poll_next-ready listed_laws 0 16 buffer room state (omega arith) (omega arith) 0 1 refl
      (HttpBody.stream ((7 ∷ 8 ∷ []) ∷ [])) (HttpBody.stream []) refl (some (ok (7 ∷ 8 ∷ []))) refl
      refl (omega arith) (omega arith) (omega arith) (omega arith)

poll_fetch-ready_example :
    (view' : Bytes) × (length view' ≡ length room)
    × (poll_fetch 0 16 buffer (at room state) 0
        ≡ some (
          with_bytes
              (with_bodies
                (with_results (with_futures (at view' state) (none ∷ [])) (none ∷ []))
                (bodies_after state (ok hello)))
              (some (5 ∷ 6 ∷ 7 ∷ []) ∷ none ∷ []),
          ready (seen_result state (ok hello)),
        ))
poll_fetch-ready_example =
    poll_fetch-ready listed_laws 0 16 buffer room state (omega arith) (omega arith) 0 1 refl
      (external_request (err FetchResultError.bad_request))
      (external_request (err FetchResultError.bad_request)) refl (ok hello) refl refl (omega arith)
      (omega arith) (omega arith) (omega arith)

-- The memory with the key in it.
abbrev keyed : Bytes
keyed = overwrite 32 (80 ∷ 79 ∷ []) room

env_get-lookup_example :
    (view' : Bytes) × (env_get 0 buffer (at keyed state) 32 2
      ≡ some (at view' state, ok (lookup "PORT" state.env)))
unfolding lookup
env_get-lookup_example =
    env_get-lookup 0 buffer keyed state (omega arith) "PORT" 32 refl (omega arith, refl)
      (omega arith) (inr (omega arith))
      (λ value h.
        subst (λ v. machine.from_utf8 (machine.as_bytes v) ≡ some v) (some-injective "8" value h)
          refl)
      (λ value h.
        subst (λ v. 48 + length (machine.as_bytes v) ≤ 64) (some-injective "8" value h)
          (omega arith))
      (λ value h.
        subst (λ v. Apart 32 2 48 (length (machine.as_bytes v))) (some-injective "8" value h)
          (inl (omega arith)))

metric_key_of-Perm_example :
    metric_key_of (record { name = "hits"; labels = ("b", "1") ∷ ("a", "2") ∷ [] })
    ≡ metric_key_of (record { name = "hits"; labels = ("a", "2") ∷ ("b", "1") ∷ [] })
metric_key_of-Perm_example =
    metric_key_of-Perm "hits" (("b", "1") ∷ ("a", "2") ∷ []) (("a", "2") ∷ ("b", "1") ∷ [])
      (Permᴰ.swap refl refl)

append_laws : AppendLaws machine
append_laws = record { limit = 24576; appended = λ headers header h. ground arith }

abbrev caller : Caller machine
caller = at room state

-- The request, with the host's body in it.
abbrev leaving : Caller machine × FetchPlan (List Bytes) ℕ
leaving = (
  with_bodies caller (none ∷ []),
  external_request (
      ok (record {
        uri = "example.org";
        method = "POST";
        headers = ("accept", 42 ∷ []) ∷ [];
        body = data_of (HttpBody.stream ((7 ∷ 8 ∷ []) ∷ []));
      })),
)

fx_fetch_handler-takes_example :
    listed.get 0
      (with_futures leaving.0
        (listed.insert leaving.1
          state.resource_set.fetch_result_futures).0).data_mut.resource_set.http_bodies
    ≡ none
unfolding read_fields from_caller slice fx_fetch_handler plan_fetch outgoing_request take_body
    plan_for lookup
fx_fetch_handler-takes_example =
    fx_fetch_handler-takes listed_laws true caller 0 4 fields 0
      (
        with_futures leaving.0 (listed.insert leaving.1 state.resource_set.fetch_result_futures).0,
        1,
      )
      refl refl refl

bytes_short :
    (id : ℕ) (v : Bytes)
    → listed.get id (some (5 ∷ 6 ∷ 7 ∷ []) ∷ []) ≡ some v
    → length v < 18446744073709551616
bytes_short zero v h =
    subst (λ (w : Bytes). length w < 18446744073709551616) (some-injective (5 ∷ 6 ∷ 7 ∷ []) v h)
      (omega arith)
bytes_short (suc id) v h = ground (arith, h)

caller-IsAddressable : IsAddressable caller
caller-IsAddressable = record {
  memory_short = omega arith;
  bytes_short = bytes_short;
  env_short = λ key value h. ground arith;
}

first_body :
    (body : HttpBody (List Bytes) ℕ)
    → listed.get 0 state.resource_set.http_bodies ≡ some body
    → HttpBody.stream ((7 ∷ 8 ∷ []) ∷ []) ≡ body
first_body body h = some-injective (HttpBody.stream ((7 ∷ 8 ∷ []) ∷ [])) body h

returns : StreamReturns caller 0
unfolding poll_body
returns waker body h k =
    subst
      (λ (b : HttpBody (List Bytes) ℕ).
        (step : HttpBody (List Bytes) ℕ × Poll (Option (Result Bytes HttpStreamError))) × (poll_body
            machine waker b
          ≡ some step))
      (first_body body k) ((HttpBody.stream [], ready (some (ok (7 ∷ 8 ∷ [])))), refl)

run-Answers_example : Answers caller (run (HostCall.http_body_poll_frame 0) caller 4096)
run-Answers_example =
    run-Answers listed_laws (HostCall.http_body_poll_frame 0) caller caller-IsAddressable returns
      4096 (omega arith)
