-- ===== src/Kv/Handlers/RoundTrip.antt =====
-- What a function reads back of what it wrote through its bindings.
use native.Mathlib.Omega.{arith}
use fx.Prelude.{
  nat_eq, list_eq, string_eq, ℕ, zero, suc, ◌+◌, ℤ, pos, negsuc, ◌≡◌, refl, ap, ◌∙◌, Bool, true,
  false, ◌&&◌, none, some, ◌==◌, ==_iff, String, if◌then◌else◌, ok, list_beq_iff, ltb, List, [],
  ◌∷◌, All, Bool-cases, inl, inr, ◌⊎◌,
}
use fx.Prelude.Dict.{lookup, lookup-insert, lookup-remove}
use fx.Kv.{Bytes, Kv, KvSetRequest, get, set, written, live, delex, subscribe, publish}
use fx.Kv.Store.{lasts, get-set}
use fx.Kv.Task.{
  KvOperation, KvMessage, Surroundings, Namespaces, handle, store_of, step, run, get_op, set_op,
  delex_op, subscribe_op, publish_op,
}
use fx.Kv.Task.Isolation.{store_of-step}
use fx.Kv.Handlers.{
  GetFields, SetFields, Bindings, Codec, Link, got, was_set, bound_namespace, handle_kv_get,
  handle_kv_set, is_nonzero, positive,
}

-- The link is up for the whole request.
abbrev pub IsUp : Link → Type 0
IsUp link = (link.accepts ≡ true) × (link.answers ≡ true)

-- Whether a `/set` with that `px`, of the instant `at`, is still to be read at another.
abbrev pub is_in_time : ℤ → ℕ → ℕ → Bool
is_in_time (pos zero) at t = true
is_in_time (pos (suc n)) at t = ltb t (at + suc n)
is_in_time (negsuc n) at t = true

is_in_time-lasts : (px : ℤ) (at t : ℕ) → is_in_time px at t ≡ lasts (positive px) at t
unfolding lasts
is_in_time-lasts (pos zero) at t = refl
is_in_time-lasts (pos (suc n)) at t = refl
is_in_time-lasts (negsuc n) at t = refl

-- What a `set` request asks to be stored.
abbrev pub asked : SetFields → Bytes → Bytes → KvSetRequest
asked w key value = record { key = key; value = value; nx = is_nonzero w.nx; px = positive w.px }

-- Whether an operation writes to a key, and a message to the key of a namespace.
abbrev pub operation_writes : Bytes → KvOperation → Bool
operation_writes key (set_op request) = request.key == key
operation_writes key (delex_op request) = request.key == key
operation_writes key (get_op _) = false
operation_writes key (subscribe_op _ _) = false
operation_writes key (publish_op _) = false

abbrev pub writes : String → Bytes → KvMessage → Bool
writes n key msg = msg.namespace == n && operation_writes key msg.operation

handle-keeps :
    (env : Surroundings) (s : Kv) (op : KvOperation) (key : Bytes)
    → operation_writes key op ≡ false
    → lookup key (handle env s op).kv.kv ≡ lookup key s.kv
unfolding handle set delex subscribe publish
handle-keeps env s (set_op request) key h =
    ground (arith, h, lookup-insert request.key key (written request env.later) s.kv)
handle-keeps env s (get_op k) key h = refl
handle-keeps env s (delex_op request) key h = ground (arith, h, lookup-remove request.key key s.kv)
handle-keeps env s (subscribe_op c tx) key h = refl
handle-keeps env s (publish_op request) key h = ground arith

run-keeps :
    (all : Namespaces) (ms : List (Surroundings × KvMessage)) (n : String) (key : Bytes)
    → All (λ m. writes n key m.1 ≡ false) ms
    → lookup key (store_of (run all ms).0 n).kv ≡ lookup key (store_of all n).kv
unfolding run
run-keeps all [] n key h = refl
run-keeps all ((env, msg) ∷ ms) n key (h, hs) =
    run-keeps (step env all msg).0 ms n key hs ∙ kept (Bool-cases (msg.namespace == n))
  where
    kept :
        (msg.namespace == n ≡ true) ⊎ (msg.namespace == n ≡ false)
        → lookup key (store_of (step env all msg).0 n).kv ≡ lookup key (store_of all n).kv
    kept (inl p) =
        rw (store_of-step env all msg n, p)
          (handle-keeps env (store_of all n) msg.operation key (ground (arith, p, h)))
    kept (inr p) = rw (store_of-step env all msg n, p) refl

module _ (codec : Codec) (bindings : Bindings) (link : Link) (up : IsUp link) (n : String)
    (key : Bytes) where
  -- The fields of a request decode, and its binding leads to the namespace.
  pub record ReadsGet (body : Bytes) : Type 0 where
    pub fields : GetFields
    pub raw : Bytes
    pub read : codec.read_get body ≡ some fields
    pub binding : fields.binding ≡ some raw
    pub bound : bound_namespace codec bindings (some raw) ≡ ok n
    pub reads_key : fields.key ≡ some key

  pub record ReadsSet (body value : Bytes) : Type 0 where
    pub fields : SetFields
    pub raw : Bytes
    pub read : codec.read_set body ≡ some fields
    pub binding : fields.binding ≡ some raw
    pub bound : bound_namespace codec bindings (some raw) ≡ ok n
    pub reads_key : fields.key ≡ some key
    pub reads_value : fields.value ≡ some value

  get_answers :
      (env : Surroundings) (all : Namespaces) (body : Bytes) (r : ReadsGet body)
      → handle_kv_get codec bindings link env all body
        ≡ some (
          (step env all (record { namespace = n; operation = get_op key })).0,
          got (ok (get (store_of all n) key env.now)),
        )
  unfolding handle_kv_get step handle
  get_answers env all body r = ground (arith, up.0, up.1, r.read, r.binding, r.bound, r.reads_key)

  set_answers :
      (env : Surroundings) (all : Namespaces) (body value : Bytes) (w : ReadsSet body value)
      → (set (store_of all n) (asked w.fields key value) env.now env.later).1 ≡ ok tt
      → handle_kv_set codec bindings link env all body
        ≡ some (
          (step env all
              (record { namespace = n; operation = set_op (asked w.fields key value) })).0,
          was_set (ok tt),
        )
  unfolding handle_kv_set step handle
  set_answers env all body value w accepted =
      ground (arith, up.0, up.1, w.read, w.binding, w.bound, w.reads_key, w.reads_value)

  -- The store takes the request: `nx` is not set, or the key cannot be read.
  abbrev pub IsAccepted : SetFields → Surroundings → Namespaces → Type 0
  IsAccepted w env all = (w.nx ≡ pos 0) ⊎ (get (store_of all n) key env.now ≡ none)

  accepted-set :
      (env : Surroundings) (all : Namespaces) (w : SetFields) (value : Bytes)
      → IsAccepted w env all
      → (set (store_of all n) (asked w key value) env.now env.later).1 ≡ ok tt
  unfolding set
  accepted-set env all w value (inl p) = rw p refl
  accepted-set env all w value (inr p) = ground (arith, p)

  -- What is read at the end of a run that does not write to the key.
  read_back :
      (env later : Surroundings) (all : Namespaces) (request : KvSetRequest)
      (ms : List (Surroundings × KvMessage))
      → request.key ≡ key
      → (set (store_of all n) request env.now env.later).1 ≡ ok tt
      → All (λ m. writes n key m.1 ≡ false) ms
      → get
          (store_of
            (run (step env all (record { namespace = n; operation = set_op request })).0 ms).0
            n)
          key
          later.now
        ≡ (if lasts request.px env.later later.now then some request.value else none)
  unfolding handle get
  read_back env later all request ms e accepted quiet =
      ap (live later.now) (
        run-keeps (step env all (record { namespace = n; operation = set_op request })).0 ms n key
          quiet)
      ∙ written_back
    where
      written_back :
          live later.now (
            lookup key
              (store_of
                (step env all (record { namespace = n; operation = set_op request })).0
                n).kv)
          ≡ (if lasts request.px env.later later.now then some request.value else none)
      written_back = ground (
        arith,
        ==_iff n n,
        list_beq_iff request.key key,
        store_of-step env all (record { namespace = n; operation = set_op request }) n,
        get-set (store_of all n) request env.now env.later key later.now accepted,
      )

  -- While the link to the task is up, a `/set` request without `nx`, or of a key that cannot be read,
  -- answers `ok`; and after any messages that do not write to the key of that namespace, a `/get` of
  -- the key through a binding to the namespace answers the value: always, if the request's `px` is not
  -- positive, and else as long as fewer than `px` milliseconds have passed since it was set, and from
  -- then on that the key is not found.
  pub set_then_get :
      (env later : Surroundings) (all : Namespaces) (set_body get_body value : Bytes)
      (w : ReadsSet set_body value) (r : ReadsGet get_body) (ms : List (Surroundings × KvMessage))
      → IsAccepted w.fields env all
      → All (λ m. writes n key m.1 ≡ false) ms
      → (all' : Namespaces) × (all'' : Namespaces) × (handle_kv_set codec bindings link env all
            set_body
          ≡ some (all', was_set (ok tt)))
        × (handle_kv_get codec bindings link later (run all' ms).0 get_body
            ≡ some (
              all'',
              got (ok (if is_in_time w.fields.px env.later later.now then some value else none)),
            ))
  set_then_get env later all set_body get_body value w r ms accepted quiet =
      let all' =
        (step env all
          (record { namespace = n; operation = set_op (asked w.fields key value) })).0 in
      let took = accepted-set env all w.fields value accepted in
      (
        all',
        (step later (run all' ms).0 (record { namespace = n; operation = get_op key })).0,
        set_answers env all set_body value w took,
        rw
            (
              is_in_time-lasts w.fields.px env.later later.now,
              ← read_back env later all (asked w.fields key value) ms refl took quiet,
            )
            (get_answers later (run all' ms).0 get_body r),
      )
