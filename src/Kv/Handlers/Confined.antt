-- ===== src/Kv/Handlers/Confined.antt =====
-- A request reaches only the namespaces that the function is bound to.
use mathlib.Core.Option
use native.Mathlib.Omega.{arith}
use fx.Prelude.{
  nat_eq, list_eq, string_eq, ℕ, ◌≡◌, ◌≢◌, refl, Option, none, some, ==_iff, String, ok, err,
  Result, subst, inl, inr, Option-cases,
}
use fx.Prelude.Dict.{lookup}
use fx.Kv.{Bytes}
use fx.Kv.Task.{KvMessage, KvReply, Surroundings, Namespaces, store_of}
use fx.Kv.Task.Isolation.{store_of-step}
use fx.Kv.Handlers.{
  GetFields, SetFields, PublishFields, DelexFields, SubscribeFields, KvHandlerError,
  KvBindingConfig, Bindings, Codec, Link, KvResponse, bound_namespace, get_message, set_message,
  publish_message, delex_message, subscribe_message, forward, handle_kv_request, got_of, set_of,
  done_of, stream_of,
}

-- No binding of the function leads to the namespace.
abbrev pub IsUnbound : Bindings → String → Type 0
IsUnbound bindings n =
    (name : String) (config : KvBindingConfig)
    → lookup name bindings ≡ some config
    → config.namespace ≢ n

module _ (codec : Codec) (bindings : Bindings) (n : String) (unbound : IsUnbound bindings n) where
  bound_namespace-ne :
      (binding : Option Bytes) {found : String}
      → bound_namespace codec bindings binding ≡ ok found
      → found ≢ n
  unfolding bound_namespace
  bound_namespace-ne none e = cc
  bound_namespace-ne (some raw) {found} e = elim (Option-cases (codec.from_utf8 raw)) [
    | inl bad ↦ ground arith
    | inr (name, read) ↦ elim (Option-cases (lookup name bindings)) [
      | inl missing ↦ ground arith
      | inr (config, has) ↦ λ same. unbound name config has (ground arith)
    ]
  ]

  -- The message that a handler builds is for a bound namespace.
  abbrev Elsewhere : Result KvMessage KvHandlerError → Type 0
  Elsewhere (ok msg) = msg.namespace ≢ n
  Elsewhere (err e) = Unit

  abbrev ElsewhereName : Result String KvHandlerError → Type 0
  ElsewhereName (ok name) = name ≢ n
  ElsewhereName (err e) = Unit

  name-Elsewhere : (binding : Option Bytes) → ElsewhereName (bound_namespace codec bindings binding)
  name-Elsewhere binding = go (bound_namespace codec bindings binding) refl
    where
      go :
          (r : Result String KvHandlerError)
          → bound_namespace codec bindings binding ≡ r
          → ElsewhereName r
      go (ok found) e = bound_namespace-ne binding e
      go (err _) e = tt

  get_message-Elsewhere : (r : GetFields) → Elsewhere (get_message codec bindings r)
  unfolding get_message
  get_message-Elsewhere r = ground (arith, name-Elsewhere r.binding)

  set_message-Elsewhere : (r : SetFields) → Elsewhere (set_message codec bindings r)
  unfolding set_message
  set_message-Elsewhere r = ground (arith, name-Elsewhere r.binding)

  publish_message-Elsewhere : (r : PublishFields) → Elsewhere (publish_message codec bindings r)
  unfolding publish_message
  publish_message-Elsewhere r = ground (arith, name-Elsewhere r.binding)

  delex_message-Elsewhere : (r : DelexFields) → Elsewhere (delex_message codec bindings r)
  unfolding delex_message
  delex_message-Elsewhere r = ground (arith, name-Elsewhere r.binding)

  subscribe_message-Elsewhere :
      (tx : ℕ) (r : SubscribeFields) → Elsewhere (subscribe_message codec bindings tx r)
  unfolding subscribe_message
  subscribe_message-Elsewhere tx r = ground (arith, name-Elsewhere r.binding)

  module _ (link : Link) (env : Surroundings) (all : Namespaces) where
    -- A namespace that a message is not for stays as it is.
    forward-keeps :
        (respond : Result KvReply KvHandlerError → KvResponse) (m : Result KvMessage KvHandlerError)
        → Elsewhere m
        → store_of (forward codec bindings link env all respond m).0 n ≡ store_of all n
    unfolding forward
    forward-keeps respond (err e) h = refl
    forward-keeps respond (ok msg) h =
        ground (arith, ==_iff msg.namespace n, store_of-step env all msg n)

    abbrev Keeps : Option (Namespaces × KvResponse) → Type 0
    Keeps none = Unit
    Keeps (some (all', _)) = store_of all' n ≡ store_of all n

    keeps {ℓ} :
        {R : Type ℓ} (respond : Result KvReply KvHandlerError → KvResponse)
        (message : R → Result KvMessage KvHandlerError)
        → ((r : R) → Elsewhere (message r))
        → (o : Option R)
        → Keeps (Option.map (λ r. forward codec bindings link env all respond (message r)) o)
    keeps respond message away none = tt
    keeps respond message away (some r) = forward-keeps respond (message r) (away r)

    Keeps-request :
        (tx : ℕ) (path : String) (body : Bytes)
        → Keeps (handle_kv_request codec bindings link env all tx path body)
    unfolding handle_kv_request
    Keeps-request tx path body = ground (
      arith,
      keeps got_of (get_message codec bindings) get_message-Elsewhere (codec.read_get body),
      keeps set_of (set_message codec bindings) set_message-Elsewhere (codec.read_set body),
      keeps done_of (publish_message codec bindings) publish_message-Elsewhere
          (codec.read_publish body),
      keeps done_of (delex_message codec bindings) delex_message-Elsewhere (codec.read_delex body),
      keeps stream_of (subscribe_message codec bindings tx) (subscribe_message-Elsewhere tx)
          (codec.read_subscribe body),
    )

-- Whatever a function requests of `kv.fx.internal`, on any path and with any body, a namespace
-- that none of its bindings leads to holds the same afterwards.
pub unbound_namespace_kept :
    (codec : Codec) (bindings : Bindings) (n : String)
    → IsUnbound bindings n
    → (link : Link) (env : Surroundings) (all : Namespaces) (tx : ℕ) (path : String) (body : Bytes)
      {after : Namespaces × KvResponse}
    → handle_kv_request codec bindings link env all tx path body ≡ some after
    → store_of after.0 n ≡ store_of all n
unbound_namespace_kept codec bindings n unbound link env all tx path body e =
    subst (Keeps codec bindings n unbound link env all) e
      (Keeps-request codec bindings n unbound link env all tx path body)
