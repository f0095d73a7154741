-- ===== src/Kv/Store.antt =====
-- What a namespace of fx-runtime/src/tasks/kv.rs stores: `set`, `get` and `delex` against a map
-- from keys to values.
use native.Mathlib.Omega.{arith}
use fx.Prelude.{
  nat_eq, list_eq, ℕ, ◌≡◌, ◌↔◌, Bool, true, false, ◌&&◌, none, some, ok, err, ◌==◌, if◌then◌else◌,
  is_some, ◌≢◌, refl, Option, not, ltb, ◌+◌, Option-cases, inl, inr,
}
use fx.Prelude.Dict.{lookup, lookup-insert, lookup-remove}
use fx.Kv.{
  Bytes, Kv, written, KvSetRequest, KvDelexRequest, already_exists, is_expired, get, set, delex,
}

-- A `set` is refused exactly when `nx` is given and the key can be read at that moment; a refused
-- `set` changes nothing, and an accepted one answers `ok`.
pub set_refused_iff :
    (s : Kv) (request : KvSetRequest) (now later : ℕ)
    → (((set s request now later).1 ≡ err already_exists)
        ↔ ((request.nx ≡ true) × (is_some (get s request.key now) ≡ true)))
      × ((set s request now later).1 ≡ err already_exists → (set s request now later).0 ≡ s)
      × ((set s request now later).1 ≢ err already_exists → (set s request now later).1 ≡ ok tt)
unfolding set
set_refused_iff s request now later = ground arith

-- Whether what was set at an instant for a time, if for any, lasts at a later instant: the time has
-- not passed.
unfoldable pub lasts : Option ℕ → ℕ → ℕ → Bool
lasts none at t = true
lasts (some time) at t = ltb t (at + time)

lasts-is_expired :
    (request : KvSetRequest) (later t : ℕ)
    → is_expired ((written request later).expires_at) t ≡ not (lasts request.px later t)
unfolding lasts
lasts-is_expired request later t = elim (Option-cases request.px) [
  | inl p ↦ rw p refl
  | inr (time, p) ↦ rw p (ground arith)
]

-- After an accepted `set` of `request`, whose time is counted from `later`, a `get` of its key at an
-- instant before the time has passed finds the value, and one from then on finds nothing; without a
-- time it is always found. A `get` of any other key finds what it found before.
pub get-set :
    (s : Kv) (request : KvSetRequest) (now later : ℕ) (key : Bytes) (t : ℕ)
    → (set s request now later).1 ≡ ok tt
    → get (set s request now later).0 key t ≡ (
        if request.key == key
        then (if lasts request.px later t then some request.value else none)
        else get s key t)
unfolding set get
get-set s request now later key t h = ground (
  arith,
  lookup-insert request.key key (written request later) s.kv,
  lasts-is_expired request later t,
)

-- Whether the value stored for a key, expired or not, is the given one.
abbrev pub stores : Kv → Bytes → Bytes → Bool
stores s key value = elim (lookup key s.kv) [ none ↦ false | some v ↦ v.value == value ]

-- `delex` removes its key if the value stored for it, expired or not, is the one given; in every
-- other case, and for every other key, a `get` finds what it found before.
pub get-delex :
    (s : Kv) (request : KvDelexRequest) (key : Bytes) (t : ℕ)
    → get (delex s request) key t
      ≡ (if request.key == key && stores s request.key request.ifeq then none else get s key t)
unfolding delex get
get-delex s request key t = ground (arith, lookup-remove request.key key s.kv)
