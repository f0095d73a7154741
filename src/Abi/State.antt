-- ===== src/Abi/State.antt =====
-- What the host keeps of a function instance and hands to the host functions: the tables of
-- fx-runtime/src/resources/resource.rs, and the fields of `FunctionInstanceState`,
-- fx-runtime/src/function/instance.rs, that fx-runtime/src/function/abi/mod.rs reads and writes.
-- Not code of the program, and therefore fields of `Host`: the slot maps behind the tables, Cap'n
-- Proto, UTF-8, the futures and streams, and the operating system's random numbers.
use fx.Prelude.{ℕ, ◌≡◌, ◌≢◌, Option, none, some, List, String, Result, Poll}
use fx.Prelude.Dict.{Dict}
use fx.Metrics.{FunctionMetricsState}
use fx.Abi.Memory.{Bytes, Export}

-- `slotmap::SlotMap`, by the numbers of its keys. `set` is a change through `get_mut`.
pub record SlotMap : Type 1 where
  pub Table : Type 0 → Type 0
  pub insert : {V : Type 0} → V → Table V → Table V × ℕ
  pub get : {V : Type 0} → ℕ → Table V → Option V
  pub set : {V : Type 0} → ℕ → V → Table V → Table V
  pub remove : {V : Type 0} → ℕ → Table V → Table V × Option V

-- Its documented behaviour. Two numbers can be read as one key (`KeyData::from_ffi`): `key` is the
-- key's own number.
pub record SlotLaws (slots : SlotMap) : Type 1 where
  pub key : ℕ → ℕ
  pub inserted :
      {V : Type 0} (v : V) (t : slots.Table V)
      → slots.get (slots.insert v t).1 (slots.insert v t).0 ≡ some v
  pub insert_fresh :
      {V : Type 0} (v : V) (t : slots.Table V) → slots.get (slots.insert v t).1 t ≡ none
  pub insert_keeps :
      {V : Type 0} (v : V) (t : slots.Table V) (k : ℕ) (w : V)
      → slots.get k t ≡ some w
      → slots.get k (slots.insert v t).0 ≡ some w
  pub set_self :
      {V : Type 0} (v w : V) (t : slots.Table V) (k : ℕ)
      → slots.get k t ≡ some w
      → slots.get k (slots.set k v t) ≡ some v
  pub set_keeps :
      {V : Type 0} (v : V) (t : slots.Table V) (k j : ℕ)
      → key k ≢ key j
      → slots.get j (slots.set k v t) ≡ slots.get j t
  pub removed : {V : Type 0} (t : slots.Table V) (k : ℕ) → (slots.remove k t).1 ≡ slots.get k t
  pub remove_missing :
      {V : Type 0} (t : slots.Table V) (k : ℕ) → slots.get k t ≡ none → (slots.remove k t).0 ≡ t
  pub remove_self :
      {V : Type 0} (t : slots.Table V) (k : ℕ) → slots.get k (slots.remove k t).0 ≡ none
  pub remove_keeps :
      {V : Type 0} (t : slots.Table V) (k j : ℕ)
      → key k ≢ key j
      → slots.get j (slots.remove k t).0 ≡ slots.get j t

-- `HttpStreamError`; the error of reqwest in the first one is left out.
pub data HttpStreamError : Type 0 where
  fetch_response_stream_error request_body_stream_error : HttpStreamError
  function_request_body_stream_error : HttpStreamError

pub data FetchResultError : Type 0 where
  failed_to_read_request bad_request body_host_resource_id_not_found : FetchResultError
  connection_failed connection_timeout response_timeout : FetchResultError
  function_not_found function_instantiation_error function_panicked : FetchResultError
  function_crashed function_busy function_incorrect_response : FetchResultError
  runtime_shutdown internal_runtime_assertion_error : FetchResultError
  internal_runtime_timeout_error : FetchResultError

abbrev pub Headers : Type 0
Headers = List (String × Bytes)

pub record HttpRequest {ℓ} (B : Type ℓ) : Type ℓ where
  pub uri : String
  pub method : String
  pub headers : Headers
  pub body : B

pub record HttpResponse {ℓ} (B : Type ℓ) : Type ℓ where
  pub status : ℕ
  pub headers : Headers
  pub body : B

-- The messages, by the fields of fx-types' schemas.
pub data BodyField : Type 0 where
  empty : BodyField
  bytes : Bytes → BodyField
  host_resource : ℕ → BodyField
  function_stream : ℕ → BodyField

-- A request as `fx_fetch_handler` reads it: what cannot be read is `none`.
pub record HeaderFields : Type 0 where
  pub name : Option String
  pub value : Option Bytes

pub record RequestFields : Type 0 where
  pub method : Option String
  pub uri : Option String
  pub headers : Option (List HeaderFields)
  pub body : Option BodyField

pub data FetchErrorField : Type 0 where
  failed_to_read_request bad_request body_host_resource_id_not_found : FetchErrorField
  connection_failed connection_timeout response_timeout : FetchErrorField
  function_not_found function_instantiation_error function_panicked : FetchErrorField
  function_crashed function_busy function_incorrect_response : FetchErrorField
  runtime_shutdown runtime_internal_error : FetchErrorField

pub data FrameField : Type 0 where
  bytes : Bytes → FrameField
  stream_end response_stream_read_error : FrameField

abbrev pub FetchResultField : Type 0
FetchResultField = Result (HttpResponse ℕ) FetchErrorField

-- `HttpBodyInner`, over the types of its two kinds of stream.
pub data HttpBody (S F : Type 0) : Type 0 where
  stream : S → HttpBody S F
  function_stream : F → HttpBody S F

-- The body that `fx_fetch_handler` gives to a request: no bytes, the request's own, one of the host's
-- bodies with its frames' data only, or a stream of the calling function.
pub data OutgoingBody (S F : Type 0) : Type 0 where
  no_bytes : OutgoingBody S F
  for_bytes : Bytes → OutgoingBody S F
  data_of : HttpBody S F → OutgoingBody S F
  for_function_stream : ℕ → OutgoingBody S F

abbrev pub Outgoing : Type 0 → Type 0 → Type 0
Outgoing S F = Result (HttpRequest (OutgoingBody S F)) FetchResultError

-- The futures that `fx_fetch_handler` makes, by what they run.
pub data FetchPlan (S F : Type 0) : Type 0 where
  failed : FetchResultError → FetchPlan S F
  invoke_function : (function_id : String) → Outgoing S F → FetchPlan S F
  blob_request kv_request sql_request external_request : Outgoing S F → FetchPlan S F

-- The fields of a request to register a counter.
pub record CounterRegister : Type 0 where
  pub name : String
  pub labels : List (String × String)

pub data EventType : Type 0 where
  begin end instant : EventType

pub data LogLevel : Type 0 where
  trace debug info warn error : LogLevel

-- The fields of a log message, each `none` where it cannot be read; a field of the event that cannot
-- be read, by its name or its value, is `none`.
pub record LogMessage : Type 0 where
  pub event_type : Option EventType
  pub level : Option LogLevel
  pub fields : Option (List (Option (String × String)))

pub record Host : Type 1 where
  pub slots : SlotMap
  pub UnitFuture : Type 0
  pub FetchFuture : Type 0
  pub Stream : Type 0
  pub FunctionStream : Type 0
  pub sleep : ℕ → UnitFuture
  pub start : FetchPlan Stream FunctionStream → FetchFuture
  pub poll_fetch :
      ℕ
      → FetchFuture
      → FetchFuture × Poll (Result (HttpResponse (HttpBody Stream FunctionStream)) FetchResultError)
  pub poll_unit : ℕ → UnitFuture → UnitFuture × Poll (Unit {0})
  pub poll_stream : ℕ → Stream → Option (Stream × Poll (Option (Result Bytes HttpStreamError)))
  pub poll_function :
      ℕ → FunctionStream → Option (FunctionStream × Poll (Option (Result Bytes (Unit {0}))))
  pub write_request : HttpRequest BodyField → Bytes
  pub write_fetch_result : FetchResultField → Bytes
  pub write_frame : FrameField → Bytes
  pub read_request : Bytes → Option RequestFields
  pub read_fetch_result : Bytes → Option FetchResultField
  pub read_frame : Bytes → Option FrameField
  pub write_counter_register : CounterRegister → Bytes
  pub read_counter_register : Bytes → Option CounterRegister
  pub read_log_message : Bytes → Option LogMessage
  pub method_from_bytes : String → Option String
  pub parse_uri : String → Option (String × Option String)
  pub to_lowercase : String → String
  pub header_name : String → Option String
  pub append_header : Headers → String × Bytes → Option Headers
  pub header_value : Bytes → Option Bytes
  pub from_utf8 : Bytes → Option String
  pub as_bytes : String → Bytes

module _ (host : Host) where
  abbrev pub Body : Type 0
  Body = HttpBody host.Stream host.FunctionStream

  abbrev pub FetchResult : Type 0
  FetchResult = Result (HttpResponse Body) FetchResultError

  pub record FunctionResources : Type 0 where
    pub bytes : host.slots.Table Bytes
    pub fetch_request_headers : host.slots.Table (HttpRequest (Option ℕ))
    pub unit_futures : host.slots.Table host.UnitFuture
    pub fetch_result_futures : host.slots.Table host.FetchFuture
    pub fetch_results : host.slots.Table FetchResult
    pub http_bodies : host.slots.Table Body
    pub http_frames : host.slots.Table (Option (Result Bytes HttpStreamError))

  pub record FunctionInstanceState : Type 0 where
    pub waker : Option ℕ
    pub resource_set : FunctionResources
    pub metrics : FunctionMetricsState
    pub env : Dict String String
    pub functions : Dict String String
    pub tasks_background : List ℕ
    pub function_id : String

  -- `wasmtime::Caller`: the instance's exports and its state.
  pub record Caller : Type 0 where
    pub memory : Export
    pub data_mut : FunctionInstanceState
