-- ===== src/Kv.antt =====
-- The key-value task, fx-runtime/src/tasks/kv.rs: the store of one namespace, its
-- publish/subscribe channels, and the message loop.
-- Instants and durations are numbers of one unit. A reading of the clock is an argument, one for
-- each call of `current_time`. `flume` is not modelled: a sender is a number, `is_open tx` says
-- whether its receiver still exists (this is when `send` on an unbounded channel succeeds), and
-- what was sent is returned as a list.
pub mod Store
pub mod Channels
pub mod Task
pub mod Handlers
mod Tests
use fx.Prelude.{
  nat_eq, list_eq, string_eq, ℕ, ◌+◌, Bool, true, false, ◌&&◌, Option, none, some, List, [], ◌∷◌,
  ◌++◌, String, Result, ok, err, ◌==◌, leb, if◌then◌else◌, retain, length, is_some, map,
}
use mathlib.Core.Option
use fx.Prelude.Dict.{Dict, lookup, insert, remove}

abbrev pub Bytes : Type 0
Bytes = List ℕ

pub record Value : Type 0 where
  pub value : Bytes
  pub expires_at : Option ℕ

pub record Channel : Type 0 where
  pub subscribers : List ℕ

pub record Kv : Type 0 where
  pub kv : Dict Bytes Value
  pub channels : Dict Bytes Channel

pub record KvSetRequest : Type 0 where
  pub key : Bytes
  pub value : Bytes
  pub nx : Bool
  pub px : Option ℕ

pub data KvSetError : Type 0 where
  already_exists : KvSetError

pub record KvDelexRequest : Type 0 where
  pub key : Bytes
  pub ifeq : Bytes

pub record KvPublishRequest : Type 0 where
  pub channel : Bytes
  pub payload : Bytes

unfoldable pub new_channel : Channel
new_channel = record { subscribers = [] }

-- `Channel::subscribe`; `tx` is the sender that `flume::unbounded` made.
unfoldable pub channel_subscribe : Channel → ℕ → Channel
channel_subscribe c tx = record c { subscribers = c.subscribers ++ tx ∷ [] }

-- `Channel::publish`: the channel left, what was sent to whom, and the returned count.
unfoldable pub channel_publish : (ℕ → Bool) → Channel → Bytes → Channel × List (ℕ × Bytes) × ℕ
channel_publish is_open c payload =
    let left = retain is_open c.subscribers in
    (record c { subscribers = left }, map (λ tx. (tx, payload)) left, length left)

unfoldable pub new : Kv
new = record { kv = []; channels = [] }

-- `expires_at <= current_time()` under `if let Some(expires_at)`.
abbrev pub is_expired : Option ℕ → ℕ → Bool
is_expired none now = false
is_expired (some at) now = leb at now

abbrev pub live : ℕ → Option Value → Option Bytes
live now none = none
live now (some v) = if is_expired v.expires_at now then none else some v.value

unfoldable pub get : Kv → Bytes → ℕ → Option Bytes
get s key now = live now (lookup key s.kv)

-- The value that `set` stores, `px` counted from `later`.
abbrev pub written : KvSetRequest → ℕ → Value
written request later = record {
  value = request.value;
  expires_at = Option.map (λ px. later + px) request.px;
}

-- `now` is the reading in the `nx` test, `later` the one that `px` is added to.
unfoldable pub set : Kv → KvSetRequest → (now later : ℕ) → Kv × Result (Unit {0}) KvSetError
unfolding get
set s request now later =
    if request.nx && is_some (get s request.key now)
    then (s, err already_exists)
    else (record s { kv = insert request.key (written request later) s.kv }, ok tt)

abbrev delex_found : Kv → KvDelexRequest → Option Value → Kv
delex_found s request none = s
delex_found s request (some v) =
    if v.value == request.ifeq then record s { kv = remove request.key s.kv } else s

unfoldable pub delex : Kv → KvDelexRequest → Kv
delex s request = delex_found s request (lookup request.key s.kv)

abbrev channel_or_new : Option Channel → Channel
channel_or_new none = record { subscribers = [] }
channel_or_new (some c) = c

unfoldable pub subscribe : Kv → Bytes → ℕ → Kv
unfolding channel_subscribe
subscribe s channel tx = record s {
  channels =
      insert channel (channel_subscribe (channel_or_new (lookup channel s.channels)) tx) s.channels;
}

-- A channel that nobody listens to any more is removed.
publish_found : (ℕ → Bool) → Kv → Bytes → Bytes → Option Channel → Kv × List (ℕ × Bytes)
unfolding channel_publish
publish_found is_open s key payload none = (s, [])
publish_found is_open s key payload (some c) =
    let (c', sent, count) = channel_publish is_open c payload in
    if count == 0
    then (record s { channels = remove key s.channels }, sent)
    else (record s { channels = insert key c' s.channels }, sent)

unfoldable pub publish : (ℕ → Bool) → Kv → Bytes → Bytes → Kv × List (ℕ × Bytes)
unfolding publish_found
publish is_open s key payload = publish_found is_open s key payload (lookup key s.channels)
