-- ===== src/Worker/Http/Answers.antt =====
-- What the HTTP handler answers, and when a function runs.
use native.Mathlib.Omega.{arith}
use text.Mathlib.Text.{starts_with}
use fx.Prelude.{
  string_eq, nat_eq, ℕ, String, false, ◌↔◌, ◌≡◌, refl, Option, none, some, ok, if◌then◌else◌,
  and_then, or_else, Option-cases, Bool-cases, inl, inr,
}
use fx.Prelude.Dict.{lookup}
use fx.Worker.{WorkerWorld, find_deployment}
use fx.Worker.Http.{
  HttpRequest, HttpResponse, Outcome, timed_out, finished, Platform, host_read, request_id_of,
  target_function, dispatch, call,
}

-- The deployment that the tables have under a function's id.
abbrev pub Holds : {D : Type 0} → WorkerWorld D → String → D → Type 0
Holds w f d =
    (id : ℕ) × (lookup f w.functions ≡ some id) × (lookup id w.function_deployments ≡ some d)

-- The deployment that a `Host` header is addressed to: that of the function of the host, in lower
-- case, and that of the default function where there is no header or no function of the host. A
-- header that is no text is addressed to none.
pub data IsAddressed {B D : Type 0} (p : Platform B) (w : WorkerWorld D)
    : Option (Option String) → D → Type 0 where
  by_host :
      {d : D} (h f : String)
      → lookup (p.lower h) w.http_hosts ≡ some f
      → Holds w f d
      → IsAddressed p w (some (some h)) d
  by_default :
      {d : D} (h f : String)
      → lookup (p.lower h) w.http_hosts ≡ none
      → w.http_default ≡ some f
      → Holds w f d
      → IsAddressed p w (some (some h)) d
  without_host :
      {d : D} (f : String) → w.http_default ≡ some f → Holds w f d → IsAddressed p w none d

module _ {B D : Type 0} (p : Platform B) (w : WorkerWorld D) where
  Holds-found : (f : String) (d : D) → Holds w f d → find_deployment w f ≡ some d
  unfolding find_deployment
  Holds-found f d (id, a, b) = rw a b

  found-Holds : (f : String) (d : D) → find_deployment w f ≡ some d → Holds w f d
  unfolding find_deployment
  found-Holds f d h = elim (Option-cases (lookup f w.functions)) [
    | inl a ↦ absurd (ground (arith, a, h))
    | inr (id, a) ↦ (id, a, ground (arith, a, h))
  ]

  -- What the lookups of `call` come to.
  looked_up : Option (Option String) → Option D
  unfolding target_function
  looked_up header =
      and_then (host_read header) (λ host. and_then (target_function p w host) (find_deployment w))

  IsAddressed-looked_up :
      (header : Option (Option String)) (d : D)
      → IsAddressed p w header d
      → looked_up header ≡ some d
  unfolding looked_up target_function find_deployment
  IsAddressed-looked_up header d (by_host h f a b) = rw a (Holds-found f d b)
  IsAddressed-looked_up header d (by_default h f a b c) = rw (a, b) (Holds-found f d c)
  IsAddressed-looked_up header d (without_host f a b) = rw a (Holds-found f d b)

  default-cases :
      (d : D)
      → and_then w.http_default (find_deployment w) ≡ some d
      → (f : String) × (w.http_default ≡ some f) × Holds w f d
  default-cases d h = elim (Option-cases w.http_default) [
    | inl a ↦ absurd (ground (arith, a, h))
    | inr (f, a) ↦ (f, a, found-Holds f d (ground (arith, a, h)))
  ]

  looked_up-IsAddressed :
      (header : Option (Option String)) (d : D)
      → looked_up header ≡ some d
      → IsAddressed p w header d
  unfolding looked_up target_function
  looked_up-IsAddressed none d h = let (f, a, b) = default-cases d h in without_host f a b
  looked_up-IsAddressed (some none) d h = absurd (ground (arith, h))
  looked_up-IsAddressed (some (some k)) d h =
      elim (Option-cases (lookup (p.lower k) w.http_hosts)) [
        | inl a ↦ let (f, b, c) = default-cases d (rw a at h) in by_default k f a b c
        | inr (f, a) ↦ by_host k f a (found-Holds f d (ground (arith, a, h)))
      ]

module _ {B D : Type 0} (p : Platform B) (w : WorkerWorld D) (run : D → Outcome B)
    (req : HttpRequest) where
  ran-looked_up :
      (call p w run req).ran
      ≡ (if starts_with req.path "/_fx/" then none else looked_up p w req.host)
  unfolding call looked_up
  ran-looked_up = elim (Option-cases (host_read req.host)) [
    | inl unread ↦ ground arith
    | inr (host, read) ↦
        elim (Option-cases (and_then (target_function p w host) (find_deployment w))) [
          | inl missing ↦ ground arith
          | inr (d, has) ↦ ground arith
        ]
  ]

  -- A deployment runs exactly when the path is not below `/_fx/` and the `Host` header is addressed
  -- to it: through the function of the host in lower case, or through the default function where there
  -- is no header or no function of that host, and never where the header is no text.
  pub runs-IsAddressed :
      (d : D)
      → ((call p w run req).ran ≡ some d)
        ↔ ((starts_with req.path "/_fx/" ≡ false) × IsAddressed p w req.host d)
  runs-IsAddressed d = elim (Bool-cases (starts_with req.path "/_fx/")) [
    | inl below ↦ (
      λ h. absurd (ground (arith, below, ran-looked_up, h)),
      λ k. absurd (ground (arith, below, k.0)),
    )
    | inr outside ↦ (
      λ h. (
        outside,
        looked_up-IsAddressed p w req.host d (ground (arith, outside, ran-looked_up, h)),
      ),
      λ k. ground (arith, outside, ran-looked_up, IsAddressed-looked_up p w req.host d (k.1)),
    )
  ]

  dispatch_event :
      (o : Option D)
      → (dispatch p run req o).event
        ≡ and_then
            (dispatch p run req o).ran
            (λ d. elim (run d) [ timed_out ↦ none | finished result ↦ some (request_id_of p req) ])
  unfolding dispatch
  dispatch_event none = refl
  dispatch_event (some d) = ground arith

  dispatch_passes :
      (o : Option D) (d : D) (r : HttpResponse B)
      → (dispatch p run req o).ran ≡ some d
      → run d ≡ finished (ok r)
      → ((dispatch p run req o).response.status ≡ r.status)
        × ((dispatch p run req o).response.body ≡ r.body)
        × ((dispatch p run req o).response.request_id
            ≡ or_else r.request_id
                (if p.parses (request_id_of p req) then some (request_id_of p req) else none))
  unfolding dispatch
  dispatch_passes none d r ran e = absurd (ground arith)
  dispatch_passes (some d') d r ran e = ground arith

  -- An event is sent to the management thread exactly when a function ran and answered in time,
  -- and it carries the request's own id, or the new one where the request has none.
  pub event_exact :
      (call p w run req).event
      ≡ and_then
          (call p w run req).ran
          (λ d. elim (run d) [ timed_out ↦ none | finished result ↦ some (request_id_of p req) ])
  unfolding call
  event_exact = elim (Option-cases (host_read req.host)) [
    | inl unread ↦ ground arith
    | inr (host, read) ↦
        rw read (dispatch_event (and_then (target_function p w host) (find_deployment w)))
  ]

  -- Where a function ran and answered, the client gets its status and its body, and its
  -- `x-request-id` header; if it set none, the request's id takes the place, unless that is no
  -- header value.
  pub response_passes :
      (d : D) (r : HttpResponse B)
      → (call p w run req).ran ≡ some d
      → run d ≡ finished (ok r)
      → ((call p w run req).response.status ≡ r.status)
        × ((call p w run req).response.body ≡ r.body)
        × ((call p w run req).response.request_id
            ≡ or_else r.request_id
                (if p.parses (request_id_of p req) then some (request_id_of p req) else none))
  unfolding call
  response_passes d r ran e = elim (Option-cases (host_read req.host)) [
    | inl unread ↦ absurd (ground arith)
    | inr (host, read) ↦ rw read (
        dispatch_passes (and_then (target_function p w host) (find_deployment w)) d r
          (rw read at ran) e)
  ]
