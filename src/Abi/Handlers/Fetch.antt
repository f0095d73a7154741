-- ===== src/Abi/Handlers/Fetch.antt =====
-- `fx_fetch_handler` of fx-runtime/src/function/abi/mod.rs: a request of a function is read, its body
-- taken over, and a future made for it by the request's host. The crates that parse methods, URIs and
-- headers and `str::to_lowercase` are fields of `Host`; a parsed URI is its text and its host.
-- `HeaderMap::append` panics where the map is full: `append_header` is `none` then, and so is what
-- calls it. The request's id, which is only logged, is left out.
use fx.Prelude.{
  and_then, ℕ, Bool, Option, none, some, String, Result, ok, err, ◌>>=◌, ok_or, List, [], ◌∷◌, ◌==◌,
  string_eq, if◌then◌else◌,
}
use fx.Prelude.Dict.{Dict, lookup}
use fx.Abi.Memory.{Bytes, from_caller, slice}
use fx.Abi.State.{
  Host, HttpRequest, BodyField, HeaderFields, RequestFields, OutgoingBody, no_bytes, for_bytes,
  data_of, for_function_stream, FetchPlan, failed, invoke_function, blob_request, kv_request,
  sql_request, external_request, FetchResultError, Caller,
}
use fx.Abi.Handlers.Http.{with_bodies, with_futures}

module _ (host : Host) where
  abbrev pub Sent : Type 0
  Sent = HttpRequest (OutgoingBody host.Stream host.FunctionStream)

  unfoldable pub read_fields : Caller host → ℕ → ℕ → Result RequestFields FetchResultError
  read_fields c req_ptr req_len = elim (from_caller c.memory) [
    | err _ ↦ err FetchResultError.failed_to_read_request
    | ok view ↦ elim (slice view req_ptr req_len) [
      | err _ ↦ err FetchResultError.failed_to_read_request
      | ok bytes ↦ ok_or (host.read_request bytes) FetchResultError.bad_request
    ]
  ]

  unfoldable pub request_method : RequestFields → Result String FetchResultError
  request_method r = do
    method ← ok_or r.method FetchResultError.bad_request
    ok_or (host.method_from_bytes method) FetchResultError.bad_request

  unfoldable pub request_uri : RequestFields → Result (String × Option String) FetchResultError
  request_uri r = do
    uri ← ok_or r.uri FetchResultError.bad_request
    ok_or (host.parse_uri uri) FetchResultError.bad_request

  unfoldable pub request_host : RequestFields → Result String FetchResultError
  unfolding request_uri
  request_host r = do
    uri ← request_uri r
    name ← ok_or uri.1 FetchResultError.bad_request
    ok (host.to_lowercase name)

  -- One header, where its name and value can be read and are valid.
  unfoldable pub read_header : HeaderFields → Result (String × Bytes) FetchResultError
  read_header h = do
    name ← ok_or h.name FetchResultError.bad_request
    value ← ok_or h.value FetchResultError.bad_request
    key ← ok_or (host.header_name name) FetchResultError.bad_request
    value ← ok_or (host.header_value value) FetchResultError.bad_request
    ok (key, value)

  -- The loop over the headers; it stops at the first that is not valid, and where there is no
  -- request to add to.
  unfoldable pub append_headers :
      Result (HttpRequest (Unit {0})) FetchResultError
      → List HeaderFields
      → Option (Result (HttpRequest (Unit {0})) FetchResultError)
  unfolding read_header
  append_headers outgoing [] = some outgoing
  append_headers (err e) (h ∷ hs) = some (elim (read_header h) [ err bad ↦ err bad | ok _ ↦ err e ])
  append_headers (ok r) (h ∷ hs) = elim (read_header h) [
    | err bad ↦ some (err bad)
    | ok header ↦
        and_then (host.append_header r.headers header)
          (λ headers. append_headers (ok (record r { headers = headers })) hs)
  ]

  -- The request without its body.
  unfoldable pub outgoing_request :
      RequestFields → Option (Result (HttpRequest (Unit {0})) FetchResultError)
  unfolding append_headers request_method request_uri
  outgoing_request r =
      let started = request_uri r >>= λ uri. request_method r >>= λ method.
      ok (record { uri = uri.0; method = method; headers = []; body = tt }) in
      elim r.headers [
        | none ↦ some (err FetchResultError.bad_request)
        | some headers ↦ append_headers started headers
      ]

  -- The body: one of the host leaves its table for good. `alive` is `self_instance.upgrade()`.
  unfoldable pub take_body :
      Bool
      → Caller host
      → Option BodyField
      → Caller host × Result (OutgoingBody host.Stream host.FunctionStream) FetchResultError
  take_body alive c none = (c, err FetchResultError.bad_request)
  take_body alive c (some BodyField.empty) = (c, ok no_bytes)
  take_body alive c (some (BodyField.bytes bytes)) = (c, ok (for_bytes bytes))
  take_body alive c (some (BodyField.host_resource id)) =
      let (rest, taken) = host.slots.remove id c.data_mut.resource_set.http_bodies in
      (
        with_bodies c rest,
        ok_or taken FetchResultError.body_host_resource_id_not_found >>= λ body. ok (data_of body),
      )
  take_body alive c (some (BodyField.function_stream id)) = (
    c,
    if alive
        then ok (for_function_stream id)
        else err FetchResultError.internal_runtime_assertion_error,
  )

  abbrev with_body : HttpRequest (Unit {0}) → OutgoingBody host.Stream host.FunctionStream → Sent
  with_body r body = record { uri = r.uri; method = r.method; headers = r.headers; body = body }

  -- What runs for a host name: a function bound to it, one of the runtime's own services, or a
  -- request to the outside. A call of a function reports a bad request before a bad body, the others
  -- a bad body first.
  unfoldable pub plan_for :
      Dict String String
      → (request_host : String) → Result (HttpRequest (Unit {0})) FetchResultError
      → Result (OutgoingBody host.Stream host.FunctionStream) FetchResultError
      → FetchPlan host.Stream host.FunctionStream
  plan_for functions name outgoing body =
      let request = body >>= λ b. outgoing >>= λ r. ok (with_body r b) in
      elim (lookup name functions) [
        | some function_id ↦
            invoke_function function_id (outgoing >>= λ r. body >>= λ b. ok (with_body r b))
        | none ↦
            if name == "blob.fx.internal"
            then blob_request request
            else if name == "kv.fx.internal"
            then kv_request request
            else if name == "sql.fx.internal"
            then sql_request request
            else external_request request
      ]

  -- The state after the body is taken, and the plan.
  unfoldable pub plan_fetch :
      Bool → Caller host → ℕ → ℕ → Option (Caller host × FetchPlan host.Stream host.FunctionStream)
  unfolding read_fields request_host outgoing_request take_body plan_for
  plan_fetch alive c req_ptr req_len = elim (read_fields c req_ptr req_len) [
    | err e ↦ some (c, failed e)
    | ok r ↦ and_then (outgoing_request r) (λ outgoing.
        let (c', body) = take_body alive c r.body in
        elim (request_host r) [
          | err e ↦ some (c', failed e)
          | ok name ↦ some (c', plan_for c.data_mut.functions name outgoing body)
        ])
  ]

  abbrev started : Caller host × FetchPlan host.Stream host.FunctionStream → Caller host × ℕ
  started (c, plan) =
      let (filled, id) =
        host.slots.insert (host.start plan) c.data_mut.resource_set.fetch_result_futures in
      (with_futures c filled, id)

  unfoldable pub fx_fetch_handler : Bool → Caller host → ℕ → ℕ → Option (Caller host × ℕ)
  unfolding plan_fetch
  fx_fetch_handler alive c req_ptr req_len =
      and_then (plan_fetch alive c req_ptr req_len) (λ p. some (started p))
