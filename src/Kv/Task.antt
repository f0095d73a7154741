-- ===== src/Kv/Task.antt =====
-- The message loop `run_kv_task`: one store for each namespace, made at its first message.
pub mod Isolation
use fx.Prelude.{
  nat_eq, list_eq, string_eq, ℕ, Bool, Option, none, some, List, [], ◌∷◌, ◌++◌, String, Result,
}
use fx.Prelude.Dict.{Dict, lookup, insert}
use fx.Kv.{
  Bytes, Kv, KvSetRequest, KvSetError, KvDelexRequest, KvPublishRequest, new, get, set, delex,
  subscribe, publish,
}

-- `KvOperation`, without the reply channels; a subscriber's sender stands for its `flume` channel.
pub data KvOperation : Type 0 where
  set_op : KvSetRequest → KvOperation
  get_op : Bytes → KvOperation
  delex_op : KvDelexRequest → KvOperation
  subscribe_op : Bytes → ℕ → KvOperation
  publish_op : KvPublishRequest → KvOperation

pub record KvMessage : Type 0 where
  pub namespace : String
  pub operation : KvOperation

-- What is sent on the message's own reply channel.
pub data KvReply : Type 0 where
  set_result : Result (Unit {0}) KvSetError → KvReply
  found : Option Bytes → KvReply
  done : KvReply
  receiver : ℕ → KvReply

-- What the environment decides while one message is handled.
pub record Surroundings : Type 0 where
  pub now : ℕ
  pub later : ℕ
  pub is_open : ℕ → Bool

pub record Handled : Type 0 where
  pub kv : Kv
  pub reply : KvReply
  pub sent : List (ℕ × Bytes)

-- The `match msg.operation` of the loop.
unfoldable pub handle : Surroundings → Kv → KvOperation → Handled
handle env s (set_op request) =
    let (s', result) = set s request env.now env.later in
    record { kv = s'; reply = set_result result; sent = [] }
handle env s (get_op key) = record { kv = s; reply = found (get s key env.now); sent = [] }
handle env s (delex_op request) = record { kv = delex s request; reply = done; sent = [] }
handle env s (subscribe_op channel tx) = record {
  kv = subscribe s channel tx;
  reply = receiver tx;
  sent = [];
}
handle env s (publish_op request) =
    let (s', sent) = publish env.is_open s request.channel request.payload in
    record { kv = s'; reply = done; sent = sent }

abbrev pub Namespaces : Type 0
Namespaces = Dict String Kv

-- `kv.entry(msg.namespace).or_default()`
abbrev entry : Option Kv → Kv
entry none = new
entry (some s) = s

unfoldable pub store_of : Namespaces → String → Kv
store_of all namespace = entry (lookup namespace all)

unfoldable pub step : Surroundings → Namespaces → KvMessage → Namespaces × Handled
unfolding store_of
step env all msg =
    let h = handle env (store_of all msg.namespace) msg.operation in
    (insert msg.namespace h.kv all, h)

-- The loop over the messages that arrive, with the replies in order.
unfoldable pub run : Namespaces → List (Surroundings × KvMessage) → Namespaces × List KvReply
run all [] = (all, [])
run all ((env, msg) ∷ msgs) =
    let (all', h) = step env all msg in
    let (final, replies) = run all' msgs in (final, h.reply ∷ replies)
