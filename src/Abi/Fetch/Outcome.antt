-- ===== src/Abi/Fetch/Outcome.antt =====
-- What a call of `fx_fetch_handler` leaves behind of the body it has taken, and who takes the request.
use fx.Prelude.{
  ℕ, ◌≡◌, ◌≢◌, Bool, true, false, none, some, String, ok, arith, Option-cases, inl, inr, string_eq,
}
use fx.Prelude.Dict.{Dict, lookup}
use fx.Abi.State.{Host, SlotLaws, BodyField, RequestFields, Caller, FetchPlan}
use fx.Abi.Handlers.Fetch.{read_fields, outgoing_request, take_body, plan_fetch, fx_fetch_handler}

-- Whether a plan is a request to the outside.
abbrev pub leaves : {S F : Type 0} → FetchPlan S F → Bool
leaves (FetchPlan.external_request _) = true
leaves (FetchPlan.failed _) = false
leaves (FetchPlan.invoke_function _ _) = false
leaves (FetchPlan.blob_request _) = false
leaves (FetchPlan.kv_request _) = false
leaves (FetchPlan.sql_request _) = false

-- No function is bound to the name, and it is none of the three services of the runtime.
abbrev pub IsOutside : Dict String String → String → Type 0
IsOutside functions name =
    (lookup name functions ≡ none)
    × (name ≢ "blob.fx.internal")
    × (name ≢ "kv.fx.internal")
    × (name ≢ "sql.fx.internal")

module _ {host : Host} (laws : SlotLaws host.slots) (alive : Bool) (c : Caller host)
    (ptr len : ℕ) where
  -- A body of the host that a readable request names is taken from its table for good, also where the
  -- request itself is refused, whenever the call returns.
  pub fx_fetch_handler-takes :
      (r : RequestFields) (id : ℕ) (after : Caller host × ℕ)
      → read_fields host c ptr len ≡ ok r
      → r.body ≡ some (BodyField.host_resource id)
      → fx_fetch_handler host alive c ptr len ≡ some after
      → host.slots.get id after.0.data_mut.resource_set.http_bodies ≡ none
  unfolding fx_fetch_handler plan_fetch take_body
  fx_fetch_handler-takes r id after read body h = elim (Option-cases (outgoing_request host r)) [
    | inl p ↦ absurd (ground (arith, read, body, p, h))
    | inr (outgoing, p) ↦
        ground (arith, read, body, p, h, laws.remove_self c.data_mut.resource_set.http_bodies id)
  ]
