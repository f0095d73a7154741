-- ===== src/Kv/Tests.antt =====
-- The key-value task's theorems at concrete stores, messages and requests.
use fx.Prelude.{
  pos, nat_eq, list_eq, string_eq, ℕ, Bool, true, false, Option, none, some, List, [], ◌∷◌, String,
  Result, ok, err, ◌≡◌, ◌≢◌, ◌↔◌, refl, if◌then◌else◌, ◌==◌, ==_iff, arith, retain, map, is_some,
  Bool-cases, inl, inr,
}
use fx.Prelude.Dict.{lookup}
use fx.Kv.{Bytes, Kv, KvSetRequest, KvDelexRequest, already_exists, get, set, delex, publish}
use fx.Kv.Store.{lasts, get-set}
use fx.Kv.Channels.{publish_delivers, listeners}
use fx.Kv.Task.{
  KvMessage, Surroundings, Namespaces, set_op, subscribe_op, publish_op, run, store_of,
}
use fx.Kv.Task.Isolation.{AllValid, run-AllValid, namespaces_isolated, sent_to}
use fx.Kv.Handlers.{
  KvBindingConfig, Codec, Link, Bindings, GetFields, SetFields, got, was_set, KvResponse,
  handle_kv_request, handle_kv_get, handle_kv_set, bound_namespace,
}
use fx.Kv.Handlers.Confined.{IsUnbound, unbound_namespace_kept}
use fx.Kv.Handlers.RoundTrip.{ReadsSet, ReadsGet, set_then_get}

abbrev key_a : Bytes
key_a = 97 ∷ []

abbrev key_b : Bytes
key_b = 98 ∷ []

abbrev stored : Kv
stored = record { kv = (key_a, record { value = 1 ∷ []; expires_at = none }) ∷ []; channels = [] }

abbrev overwrite : KvSetRequest
overwrite = record { key = key_a; value = 2 ∷ []; nx = false; px = some 10 }

get-set_example : get (set stored overwrite 0 5).0 key_a 15 ≡ none
unfolding set get lasts
get-set_example = get-set stored overwrite 0 5 key_a 15 refl

abbrev claim : KvSetRequest
claim = record { key = key_a; value = 2 ∷ []; nx = true; px = none }

abbrev release : KvDelexRequest
release = record { key = key_a; ifeq = 1 ∷ [] }

abbrev heard : Kv
heard = record { kv = []; channels = (key_b, record { subscribers = 1 ∷ 2 ∷ [] }) ∷ [] }

publish_delivers_example :
    ((publish (λ tx. tx == 2) heard key_b (7 ∷ [])).1 ≡ (2, 7 ∷ []) ∷ [])
    × (listeners (publish (λ tx. tx == 2) heard key_b (7 ∷ [])).0 key_b ≡ 2 ∷ [])
unfolding lookup
publish_delivers_example = publish_delivers (λ tx. tx == 2) heard key_b (7 ∷ []) key_b

abbrev quiet : Surroundings
quiet = record { now = 0; later = 5; is_open = λ tx. false }

abbrev two_messages : List (Surroundings × KvMessage)
two_messages =
    (quiet, record { namespace = "a"; operation = set_op claim })
    ∷ (quiet, record { namespace = "b"; operation = subscribe_op key_b 1 })
    ∷ []

run-AllValid_example : AllValid (run [] two_messages).0
run-AllValid_example = run-AllValid two_messages

namespaces_isolated_example :
    store_of (run [] two_messages).0 "b" ≡ store_of (run [] (sent_to "b" two_messages)).0 "b"
namespaces_isolated_example = namespaces_isolated [] two_messages "b"

-- A reader that finds the binding `kv` and the key in every message.
abbrev get_fields : GetFields
get_fields = record { binding = some (107 ∷ []); key = some key_a }

abbrev set_fields : SetFields
set_fields = record {
  binding = some (107 ∷ []);
  key = some key_a;
  value = some (2 ∷ []);
  nx = pos 0;
  px = pos 10;
}

abbrev codec : Codec
codec = record {
  from_utf8 = λ b. some "kv";
  read_get = λ b. some get_fields;
  read_set = λ b. some set_fields;
  read_publish = λ b. none;
  read_delex = λ b. none;
  read_subscribe = λ b. none;
}

abbrev bindings : Bindings
bindings = ("kv", record { namespace = "a" }) ∷ []

abbrev up : Link
up = record { accepts = true; answers = true }

only_value :
    (k name : String) (c config : KvBindingConfig)
    → lookup name ((k, c) ∷ []) ≡ some config
    → c ≡ config
unfolding lookup
only_value k name c config h = ground arith

others-IsUnbound : IsUnbound bindings "b"
others-IsUnbound name config h same =
    let e = only_value "kv" name (record { namespace = "a" }) config h in
    let a_is_b : ◌≡◌ {A = String} "a" "b" = ground arith in
    absurd (ground (arith, ==_iff {A = String} "a" "b"))

abbrev after_set : Namespaces × KvResponse
after_set = (
  (
    "a",
    record { kv = (key_a, record { value = 2 ∷ []; expires_at = some 15 }) ∷ []; channels = [] },
  )
      ∷ [],
  was_set (ok tt),
)

unbound_namespace_kept_example : store_of after_set.0 "b" ≡ store_of [] "b"
unfolding handle_kv_request lookup fx.Kv.Task.step fx.Prelude.Dict.insert fx.Kv.Task.handle set
    fx.Kv.new
unbound_namespace_kept_example =
    unbound_namespace_kept codec bindings "b" others-IsUnbound up quiet [] 1 "/set" []
      {after = after_set} refl

reads_set : ReadsSet codec bindings up (refl, refl) "a" key_a [] (2 ∷ [])
unfolding bound_namespace lookup
reads_set = record {
  fields = set_fields;
  raw = 107 ∷ [];
  read = refl;
  binding = refl;
  bound = refl;
  reads_key = refl;
  reads_value = refl;
}

reads_get : ReadsGet codec bindings up (refl, refl) "a" key_a []
unfolding bound_namespace lookup
reads_get = record {
  fields = get_fields;
  raw = 107 ∷ [];
  read = refl;
  binding = refl;
  bound = refl;
  reads_key = refl;
}

abbrev much_later : Surroundings
much_later = record { now = 14; later = 14; is_open = λ tx. false }

-- Another key of the namespace is set, and this key of another namespace.
abbrev elsewhere : List (Surroundings × KvMessage)
elsewhere =
    (quiet, record { namespace = "a"; operation = set_op (record claim { key = key_b }) })
    ∷ (quiet, record { namespace = "b"; operation = set_op claim })
    ∷ []

set_then_get_example :
    (all' : Namespaces) × (all'' : Namespaces) × (handle_kv_set codec bindings up quiet [] []
      ≡ some (all', was_set (ok tt)))
    × (handle_kv_get codec bindings up much_later (run all' elsewhere).0 []
        ≡ some (all'', got (ok (some (2 ∷ [])))))
unfolding reads_set
set_then_get_example =
    set_then_get codec bindings up (refl, refl) "a" key_a quiet much_later [] [] [] (2 ∷ [])
      reads_set reads_get elsewhere (inl refl) (refl, (refl, tt))
