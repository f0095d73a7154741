-- ===== src/Worker/Http.antt =====
-- The HTTP server of a worker, `HttpHandler::call` of fx-runtime/src/triggers/http.rs.
-- A header value is `none` where `to_str` fails. A response has its status, its body and its
-- `x-request-id` header, the only header that the handler looks at; a body is a value of a type
-- `B`. What the deployment answers is the environment's.
pub mod Answers
use text.Mathlib.Text.{starts_with}
use fx.Prelude.{
  string_eq, nat_eq, ℕ, Bool, true, false, not, ◌&&◌, ◌≡◌, ◌≢◌, ◌↔◌, refl, Option, none, some, List,
  [], ◌∷◌, String, Result, ok, err, if◌then◌else◌, and_then, or_else, is_none, is_some, unwrap_or,
  Option-cases, Bool-cases, inl, inr, ◌⊎◌,
}
use fx.Prelude.Dict.{lookup}
use fx.Worker.{WorkerWorld, find_deployment}
use fx.Function.{
  HandleRequestError, assertion_error, runtime_timeout, panicked, crashed, busy, incorrect_response,
  instantiation_error,
}

pub record HttpRequest : Type 0 where
  pub host : Option (Option String)
  pub request_id : Option (Option String)
  pub path : String

pub record HttpResponse (B : Type 0) : Type 0 where
  pub status : ℕ
  pub body : B
  pub request_id : Option String

-- What a deployment comes to within the handler's twenty seconds.
pub data Outcome (B : Type 0) : Type 0 where
  timed_out : Outcome B
  finished : Result (HttpResponse B) HandleRequestError → Outcome B

-- The answer, the deployment that the request was handed to, and the id in the
-- `FunctionInvokedMessage` that was sent to the management thread.
pub record Call (B D : Type 0) : Type 0 where
  pub response : HttpResponse B
  pub ran : Option D
  pub event : Option String

-- What the handler takes from the libraries: `HttpBody::for_bytes`, `str::to_lowercase`, whether a
-- text is a header value, and a new `Ulid`.
pub record Platform (B : Type 0) : Type 0 where
  pub text : String → B
  pub lower : String → String
  pub parses : String → Bool
  pub new_id : String

abbrev host_read : Option (Option String) → Option (Option String)
host_read none = some none
host_read (some none) = none
host_read (some (some h)) = some (some h)

module _ {B : Type 0} (p : Platform B) where
  abbrev plain : ℕ → String → HttpResponse B
  plain status body = record { status = status; body = p.text body; request_id = none }

  unfoldable pub error_response : HandleRequestError → HttpResponse B
  error_response instantiation_error = plain 502 "failed to start function to handle the request.\n"
  error_response panicked = plain 502 "function panicked while handling request.\n"
  error_response crashed = plain 502 "function crashed while handling request.\n"
  error_response busy =
      plain 504 "function is busy handling other requests and cannot accept a new one.\n"
  error_response incorrect_response = plain 502 "function returned incorrect response.\n"
  error_response assertion_error = plain 500 "internal runtime error.\n"
  error_response runtime_timeout = plain 500 "internal runtime error.\n"

  unfoldable pub answer_of : Result (HttpResponse B) HandleRequestError → HttpResponse B
  unfolding error_response
  answer_of (ok r) = r
  answer_of (err e) = error_response e

  -- The request's own id, or a new one.
  unfoldable pub request_id_of : HttpRequest → String
  request_id_of req = unwrap_or (and_then req.request_id (λ v. v)) p.new_id

  unfoldable pub with_request_id : HttpResponse B → String → HttpResponse B
  with_request_id r id =
      if is_none r.request_id && p.parses id then record r { request_id = some id } else r

  module _ {D : Type 0} where
    -- The table lookups at the start of `call`, for a `Host` header that could be read.
    unfoldable pub target_function : WorkerWorld D → Option String → Option String
    target_function w host =
        or_else (and_then host (λ h. lookup (p.lower h) w.http_hosts)) w.http_default

    finish : HttpRequest → D → Outcome B → Call B D
    unfolding answer_of with_request_id request_id_of
    finish req d timed_out = record {
      response = plain 504 "function timed out while handling request.\n";
      ran = some d;
      event = none;
    }
    finish req d (finished result) = record {
      response = with_request_id (answer_of result) (request_id_of req);
      ran = some d;
      event = some (request_id_of req);
    }

    dispatch : (D → Outcome B) → HttpRequest → Option D → Call B D
    unfolding finish
    dispatch run req none = record {
      response = plain 502 "no fx function found to handle this request.\n";
      ran = none;
      event = none;
    }
    dispatch run req (some d) =
        if starts_with req.path "/_fx/"
        then record { response = plain 404 "not found.\n"; ran = none; event = none }
        else finish req d (run d)

    -- `none` from `host_read` is the `Host` header that is not text.
    call_for : WorkerWorld D → (D → Outcome B) → HttpRequest → Option (Option String) → Call B D
    unfolding dispatch target_function find_deployment
    call_for w run req none = record {
      response = plain 400 "invalid Host header\n";
      ran = none;
      event = none;
    }
    call_for w run req (some host) =
        dispatch run req (and_then (target_function w host) (find_deployment w))

    unfoldable pub call : WorkerWorld D → (D → Outcome B) → HttpRequest → Call B D
    unfolding call_for
    call w run req = call_for w run req (host_read req.host)
