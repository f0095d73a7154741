-- ===== src/Kv/Handlers.antt =====
-- The requests of a function to `kv.fx.internal`, fx-runtime/src/effects/kv.rs: routing by path,
-- the lookup of the binding, the message to the key-value task, and the response.
-- Cap'n Proto and UTF-8 decoding are not code of the program: `Codec` holds them as functions. A
-- reader that the source unwraps gives `none` for a malformed message, and then the handler
-- panics; a field that cannot be read is `none` in its record. A response is the value that is
-- encoded. Only the handler of `/subscribe` sets a status on its own.
pub mod Confined
pub mod RoundTrip
use mathlib.Core.Option
use fx.Prelude.{
  nat_eq, list_eq, string_eq, ℕ, zero, suc, ℤ, pos, negsuc, Bool, true, false, not, Option, none,
  some, String, Result, ok, err, ◌>>=◌, ok_or, ltb, ◌==◌, if◌then◌else◌,
}
use fx.Prelude.Dict.{Dict, lookup}
use fx.Kv.{Bytes, KvSetRequest, KvSetError, already_exists, KvDelexRequest, KvPublishRequest}
use fx.Kv.Task.{
  KvOperation, set_op, get_op, delex_op, subscribe_op, publish_op, KvMessage, KvReply, set_result,
  found, done, receiver, Surroundings, Namespaces, step,
}

-- `KvGetHandlerError`, `KvDelexHandlerError`, `KvPublishHandlerError` and
-- `KvSubscriptionHandlerError` have these three constructors each.
pub data KvHandlerError : Type 0 where
  runtime_shutdown binding_not_found bad_request : KvHandlerError

pub data KvSetHandlerError : Type 0 where
  refused : KvSetError → KvSetHandlerError
  failed : KvHandlerError → KvSetHandlerError

pub record KvBindingConfig : Type 0 where
  pub namespace : String

abbrev pub Bindings : Type 0
Bindings = Dict String KvBindingConfig

pub record GetFields : Type 0 where
  pub binding : Option Bytes
  pub key : Option Bytes

pub record SetFields : Type 0 where
  pub binding : Option Bytes
  pub key : Option Bytes
  pub value : Option Bytes
  pub nx : ℤ
  pub px : ℤ

pub record PublishFields : Type 0 where
  pub binding : Option Bytes
  pub channel : Option Bytes
  pub payload : Option Bytes

pub record DelexFields : Type 0 where
  pub binding : Option Bytes
  pub key : Option Bytes
  pub ifeq : Option Bytes

pub record SubscribeFields : Type 0 where
  pub binding : Option Bytes
  pub channel : Option Bytes

pub record Codec : Type 0 where
  pub from_utf8 : Bytes → Option String
  pub read_get : Bytes → Option GetFields
  pub read_set : Bytes → Option SetFields
  pub read_publish : Bytes → Option PublishFields
  pub read_delex : Bytes → Option DelexFields
  pub read_subscribe : Bytes → Option SubscribeFields

-- Whether the task still takes messages, and whether its reply comes back.
pub record Link : Type 0 where
  pub accepts : Bool
  pub answers : Bool

-- `kv_tx.send_async(..)` and `result_rx.await`, either of which fails when the task is gone.
unfoldable pub ask :
    Link → Surroundings → Namespaces → KvMessage → Namespaces × Result KvReply KvHandlerError
ask link env all msg =
    if not link.accepts
    then (all, err runtime_shutdown)
    else (let (all', h) = step env all msg in
        (all', if link.answers then ok h.reply else err runtime_shutdown))

pub data KvResponse : Type 0 where
  got : Result (Option Bytes) KvHandlerError → KvResponse
  was_set : Result (Unit {0}) KvSetHandlerError → KvResponse
  was_done : Result (Unit {0}) KvHandlerError → KvResponse
  stream : ℕ → KvResponse
  subscribe_failed : KvHandlerError → (status : ℕ) → KvResponse
  no_such_path : (status : ℕ) → KvResponse

-- The replies as the handlers read them; `handle` answers each operation by its own kind.
abbrev got_of : Result KvReply KvHandlerError → KvResponse
got_of (ok (found v)) = got (ok v)
got_of (ok _) = got (ok none)
got_of (err e) = got (err e)

abbrev set_of : Result KvReply KvHandlerError → KvResponse
set_of (ok (set_result (err e))) = was_set (err (refused e))
set_of (ok _) = was_set (ok tt)
set_of (err e) = was_set (err (failed e))

abbrev done_of : Result KvReply KvHandlerError → KvResponse
done_of (ok _) = was_done (ok tt)
done_of (err e) = was_done (err e)

unfoldable pub subscribe_status : KvHandlerError → ℕ
subscribe_status runtime_shutdown = 503
subscribe_status binding_not_found = 404
subscribe_status bad_request = 400

stream_of : Result KvReply KvHandlerError → KvResponse
stream_of (ok (receiver tx)) = stream tx
stream_of (ok _) = subscribe_failed runtime_shutdown (subscribe_status runtime_shutdown)
stream_of (err e) = subscribe_failed e (subscribe_status e)

-- `nx != 0`, and `if px > 0 { Some(..) } else { None }`.
abbrev pub is_nonzero : ℤ → Bool
is_nonzero (pos zero) = false
is_nonzero _ = true

abbrev pub positive : ℤ → Option ℕ
positive (pos zero) = none
positive (pos (suc n)) = some (suc n)
positive (negsuc n) = none

module _ (codec : Codec) (bindings : Bindings) where
  -- The first lines of every handler: the binding's name is read, then looked up.
  unfoldable pub bound_namespace : Option Bytes → Result String KvHandlerError
  bound_namespace binding = do
    raw ← ok_or binding bad_request
    name ← ok_or (codec.from_utf8 raw) bad_request
    config ← ok_or (lookup name bindings) binding_not_found
    ok config.namespace

  unfoldable pub get_message : GetFields → Result KvMessage KvHandlerError
  unfolding bound_namespace
  get_message request = do
    namespace ← bound_namespace request.binding
    key ← ok_or request.key bad_request
    ok (record { namespace = namespace; operation = get_op key })

  -- `px` counts milliseconds; where it is not positive there is none.
  unfoldable pub set_message : SetFields → Result KvMessage KvHandlerError
  unfolding bound_namespace
  set_message request = do
    namespace ← bound_namespace request.binding
    key ← ok_or request.key bad_request
    value ← ok_or request.value bad_request
    ok (record {
      namespace = namespace;
      operation = set_op (record {
        key = key;
        value = value;
        nx = is_nonzero request.nx;
        px = positive request.px;
      });
    })

  unfoldable pub publish_message : PublishFields → Result KvMessage KvHandlerError
  unfolding bound_namespace
  publish_message request = do
    namespace ← bound_namespace request.binding
    channel ← ok_or request.channel bad_request
    payload ← ok_or request.payload bad_request
    ok (record {
      namespace = namespace;
      operation = publish_op (record { channel = channel; payload = payload });
    })

  unfoldable pub delex_message : DelexFields → Result KvMessage KvHandlerError
  unfolding bound_namespace
  delex_message request = do
    namespace ← bound_namespace request.binding
    key ← ok_or request.key bad_request
    ifeq ← ok_or request.ifeq bad_request
    ok (record { namespace = namespace; operation = delex_op (record { key = key; ifeq = ifeq }) })

  unfoldable pub subscribe_message : ℕ → SubscribeFields → Result KvMessage KvHandlerError
  unfolding bound_namespace
  subscribe_message tx request = do
    namespace ← bound_namespace request.binding
    channel ← ok_or request.channel bad_request
    ok (record { namespace = namespace; operation = subscribe_op channel tx })

  module _ (link : Link) (env : Surroundings) (all : Namespaces) where
    -- The rest of a handler: the message is sent if it could be built.
    unfoldable pub forward :
        (Result KvReply KvHandlerError → KvResponse)
        → Result KvMessage KvHandlerError
        → Namespaces × KvResponse
    unfolding ask
    forward respond (err e) = (all, respond (err e))
    forward respond (ok msg) = let (all', reply) = ask link env all msg in (all', respond reply)

    unfoldable pub handle_kv_get : Bytes → Option (Namespaces × KvResponse)
    unfolding forward get_message
    handle_kv_get body = Option.map (λ r. forward got_of (get_message r)) (codec.read_get body)

    unfoldable pub handle_kv_set : Bytes → Option (Namespaces × KvResponse)
    unfolding forward set_message
    handle_kv_set body = Option.map (λ r. forward set_of (set_message r)) (codec.read_set body)

    unfoldable pub handle_kv_publish : Bytes → Option (Namespaces × KvResponse)
    unfolding forward publish_message
    handle_kv_publish body =
        Option.map (λ r. forward done_of (publish_message r)) (codec.read_publish body)

    unfoldable pub handle_kv_delex_ifeq : Bytes → Option (Namespaces × KvResponse)
    unfolding forward delex_message
    handle_kv_delex_ifeq body =
        Option.map (λ r. forward done_of (delex_message r)) (codec.read_delex body)

    unfoldable pub handle_kv_subscribe : ℕ → Bytes → Option (Namespaces × KvResponse)
    unfolding forward subscribe_message stream_of subscribe_status
    handle_kv_subscribe tx body =
        Option.map (λ r. forward stream_of (subscribe_message tx r)) (codec.read_subscribe body)

    -- `none` is a panic; `tx` is the channel that a subscription makes.
    unfoldable pub handle_kv_request : ℕ → String → Bytes → Option (Namespaces × KvResponse)
    unfolding handle_kv_get handle_kv_set handle_kv_publish handle_kv_delex_ifeq handle_kv_subscribe
    handle_kv_request tx path body =
        if path == "/get"
        then handle_kv_get body
        else if path == "/set"
        then handle_kv_set body
        else if path == "/publish"
        then handle_kv_publish body
        else if path == "/delex_ifeq"
        then handle_kv_delex_ifeq body
        else if path == "/subscribe"
        then handle_kv_subscribe tx body
        else some (all, no_such_path 404)
