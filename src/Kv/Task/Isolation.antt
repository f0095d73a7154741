-- ===== src/Kv/Task/Isolation.antt =====
-- Whole runs of the key-value task: the invariant of every namespace, and that the namespaces do
-- not see one another.
use native.Mathlib.Omega.{arith}
use fx.Prelude.{
  nat_eq, list_eq, string_eq, ◌≡◌, refl, true, false, ◌==◌, ==_iff, String, if◌then◌else◌, List, [],
  ◌∷◌, retain, Bool-cases, inl, inr, ◌⊎◌,
}
use fx.Prelude.Dict.{lookup, lookup-insert}
use fx.Kv.{Kv, new}
use fx.Kv.Channels.{IsValid, set-IsValid, delex-IsValid, subscribe-IsValid, publish-IsValid}
use fx.Kv.Task.{
  KvOperation, set_op, get_op, delex_op, subscribe_op, publish_op, KvMessage, Surroundings, handle,
  Namespaces, store_of, step, run,
}

handle-IsValid :
    (env : Surroundings) (s : Kv) (op : KvOperation) → IsValid s → IsValid (handle env s op).kv
unfolding handle
handle-IsValid env s (set_op request) valid = set-IsValid valid request env.now env.later
handle-IsValid env s (get_op key) valid = valid
handle-IsValid env s (delex_op request) valid = delex-IsValid valid request
handle-IsValid env s (subscribe_op channel tx) valid = subscribe-IsValid valid channel tx
handle-IsValid env s (publish_op request) valid =
    publish-IsValid valid env.is_open request.channel request.payload

new-IsValid : IsValid new
unfolding new lookup
new-IsValid = record { kv_unique = tt; channels_unique = tt; busy = λ key c h. cc }

-- After a step a namespace has what the message left, if it was sent there, and what it had if not.
pub store_of-step :
    (env : Surroundings) (all : Namespaces) (msg : KvMessage) (n : String)
    → store_of (step env all msg).0 n ≡ (
        if msg.namespace == n
        then (handle env (store_of all n) msg.operation).kv
        else store_of all n)
unfolding store_of step
store_of-step env all msg n = ground (
  arith,
  ==_iff msg.namespace n,
  lookup-insert msg.namespace n (handle env (store_of all msg.namespace) msg.operation).kv all,
)

abbrev pub AllValid : Namespaces → Type 0
AllValid all = (n : String) → IsValid (store_of all n)

step-AllValid :
    (env : Surroundings) (all : Namespaces) (msg : KvMessage)
    → AllValid all
    → AllValid (step env all msg).0
step-AllValid env all msg valid n = rw store_of-step (go (Bool-cases (msg.namespace == n)))
  where
    go :
        (msg.namespace == n ≡ true) ⊎ (msg.namespace == n ≡ false)
        → IsValid (
            if msg.namespace == n
            then (handle env (store_of all n) msg.operation).kv
            else store_of all n)
    go (inl same) = rw same (handle-IsValid env (store_of all n) msg.operation (valid n))
    go (inr other) = rw other (valid n)

run-AllValid_from :
    (all : Namespaces) (msgs : List (Surroundings × KvMessage))
    → AllValid all
    → AllValid (run all msgs).0
unfolding run
run-AllValid_from all [] valid = valid
run-AllValid_from all ((env, msg) ∷ msgs) valid =
    run-AllValid_from (step env all msg).0 msgs (step-AllValid env all msg valid)

-- Whatever messages the task has handled, and whatever the clock and the receivers did, in every
-- namespace no key is stored twice and every channel kept has at least one subscriber.
pub run-AllValid : (msgs : List (Surroundings × KvMessage)) → AllValid (run [] msgs).0
unfolding store_of lookup
run-AllValid msgs = run-AllValid_from [] msgs (λ n. new-IsValid)

-- The messages of one namespace.
abbrev pub sent_to : String → List (Surroundings × KvMessage) → List (Surroundings × KvMessage)
sent_to n = retain (λ m. m.1.namespace == n)

isolated_from :
    (all alone : Namespaces) (msgs : List (Surroundings × KvMessage)) (n : String)
    → store_of all n ≡ store_of alone n
    → store_of (run all msgs).0 n ≡ store_of (run alone (sent_to n msgs)).0 n
unfolding run
isolated_from all alone [] n same = same
isolated_from all alone ((env, msg) ∷ msgs) n same = elim (Bool-cases (msg.namespace == n)) [
  | inl here ↦ rw here (
      isolated_from (step env all msg).0 (step env alone msg).0 msgs n
        (ground (arith, store_of-step env all msg n, store_of-step env alone msg n)))
  | inr other ↦ rw other (
      isolated_from (step env all msg).0 alone msgs n (ground (arith, store_of-step env all msg n)))
]

-- What a namespace holds after a run depends on the messages sent to that namespace alone: a run
-- of just those messages, in the same order and surroundings, leaves it the same.
pub namespaces_isolated :
    (all : Namespaces) (msgs : List (Surroundings × KvMessage)) (n : String)
    → store_of (run all msgs).0 n ≡ store_of (run all (sent_to n msgs)).0 n
namespaces_isolated all msgs n = isolated_from all all msgs n refl
