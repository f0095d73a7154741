-- ===== src/Kv/Channels.antt =====
-- The channels of fx-runtime/src/tasks/kv.rs: who receives what is published, and which channels
-- are kept.
use native.Mathlib.Omega.{arith}
use fx.Prelude.{
  nat_eq, list_eq, ℕ, ◌≡◌, refl, Bool, Option, none, some, ◌==◌, if◌then◌else◌, ◌≢◌, List, [], ◌∷◌,
  ◌++◌, retain, map, list_beq_iff, eq-nil_of_length,
}
use fx.Prelude.Dict.{
  lookup, lookup-insert, lookup-remove, IsUnique, insert-IsUnique, remove-IsUnique,
}
use fx.Kv.{
  Bytes, Kv, Channel, channel_subscribe, publish_found, set, delex, subscribe, publish,
  KvSetRequest, KvDelexRequest, channel_or_new, written,
}

-- The senders subscribed to a channel, in the order of subscription.
abbrev pub listeners : Kv → Bytes → List ℕ
listeners s key = (channel_or_new (lookup key s.channels)).subscribers

-- Subscribing adds the new sender behind the channel's others, and leaves the other channels alone.
pub listeners-subscribe :
    (s : Kv) (channel key : Bytes) (tx : ℕ)
    → listeners (subscribe s channel tx) key
      ≡ (if channel == key then listeners s key ++ tx ∷ [] else listeners s key)
unfolding subscribe
listeners-subscribe s channel key tx = ground (
  arith,
  list_beq_iff channel key,
  lookup-insert channel key (channel_subscribe (channel_or_new (lookup channel s.channels)) tx)
      s.channels,
)

publish_found_delivers :
    (is_open : ℕ → Bool) (s : Kv) (channel payload key : Bytes) (o : Option Channel)
    → lookup channel s.channels ≡ o
    → ((publish_found is_open s channel payload o).1
        ≡ map (λ tx. (tx, payload)) (retain is_open (listeners s channel)))
      × (listeners (publish_found is_open s channel payload o).0 key
          ≡ (if channel == key then retain is_open (listeners s key) else listeners s key))
unfolding publish_found
publish_found_delivers is_open s channel payload key none e =
    (ground arith, ground (arith, list_beq_iff channel key))
publish_found_delivers is_open s channel payload key (some c) e =
    let left = retain is_open c.subscribers in
    (
      ground arith,
      ground (
        arith,
        list_beq_iff channel key,
        eq-nil_of_length left,
        lookup-remove channel key s.channels,
        lookup-insert channel key (record c { subscribers = left }) s.channels,
      ),
    )

-- Publishing sends the payload once to each open sender of the channel, in the order of
-- subscription, and to nobody else; the closed senders are dropped from the channel, and the
-- other channels stay as they were.
pub publish_delivers :
    (is_open : ℕ → Bool) (s : Kv) (channel payload key : Bytes)
    → ((publish is_open s channel payload).1
        ≡ map (λ tx. (tx, payload)) (retain is_open (listeners s channel)))
      × (listeners (publish is_open s channel payload).0 key
          ≡ (if channel == key then retain is_open (listeners s key) else listeners s key))
unfolding publish
publish_delivers is_open s channel payload key =
    publish_found_delivers is_open s channel payload key _ refl

-- No channel is kept without a subscriber, and no key stands twice in either map.
pub record IsValid (s : Kv) : Type 0 where
  pub kv_unique : IsUnique s.kv
  pub channels_unique : IsUnique s.channels
  pub busy : (key : Bytes) → (c : Channel) → lookup key s.channels ≡ some c → c.subscribers ≢ []

append-ne_nil {ℓ} : {A : Type ℓ} (xs : List A) (x : A) → xs ++ x ∷ [] ≢ []
append-ne_nil [] x e = cc
append-ne_nil (y ∷ ys) x e = cc

module _ {s : Kv} (valid : IsValid s) where
  pub set-IsValid : (request : KvSetRequest) (now later : ℕ) → IsValid (set s request now later).0
  unfolding set
  set-IsValid request now later = record {
    kv_unique = ground (
      arith,
      valid.kv_unique,
      insert-IsUnique request.key (written request later) s.kv valid.kv_unique,
    );
    channels_unique = ground (arith, valid.channels_unique);
    busy = λ key c h. valid.busy key c (ground arith);
  }

  pub delex-IsValid : (request : KvDelexRequest) → IsValid (delex s request)
  unfolding delex
  delex-IsValid request = record {
    kv_unique = ground (arith, remove-IsUnique request.key s.kv valid.kv_unique);
    channels_unique = ground arith;
    busy = λ key c h. valid.busy key c (ground arith);
  }

  pub subscribe-IsValid : (channel : Bytes) (tx : ℕ) → IsValid (subscribe s channel tx)
  unfolding subscribe channel_subscribe
  subscribe-IsValid channel tx =
      let old = channel_or_new (lookup channel s.channels) in
      record {
        kv_unique = valid.kv_unique;
        channels_unique =
            insert-IsUnique channel (channel_subscribe old tx) s.channels valid.channels_unique;
        busy = λ key c h. ground (
          arith,
          valid.busy key c,
          append-ne_nil old.subscribers tx,
          lookup-insert channel key (channel_subscribe old tx) s.channels,
        );
      }

  publish_found-IsValid :
      (is_open : ℕ → Bool) (channel payload : Bytes) (o : Option Channel)
      → IsValid (publish_found is_open s channel payload o).0
  unfolding publish_found
  publish_found-IsValid is_open channel payload none = valid
  publish_found-IsValid is_open channel payload (some c) =
      let left = retain is_open c.subscribers in
      let kept : Channel = record c { subscribers = left } in
      record {
        kv_unique = ground (arith, valid.kv_unique);
        channels_unique = ground (
          arith,
          remove-IsUnique channel s.channels valid.channels_unique,
          insert-IsUnique channel kept s.channels valid.channels_unique,
        );
        busy = λ key d h. ground (
          arith,
          valid.busy key d,
          lookup-remove channel key s.channels,
          lookup-insert channel key kept s.channels,
        );
      }

  pub publish-IsValid :
      (is_open : ℕ → Bool) (channel payload : Bytes) → IsValid (publish is_open s channel payload).0
  unfolding publish
  publish-IsValid is_open channel payload =
      publish_found-IsValid is_open channel payload (lookup channel s.channels)
