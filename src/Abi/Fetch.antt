-- ===== src/Abi/Fetch.antt =====
-- What `fx_fetch_handler` does with a request: which request is sent, who takes it, and what becomes of
-- the body.
pub mod Outcome
use fx.Prelude.{
  ℕ, ◌<◌, ◌≡◌, ◌≢◌, Bool, true, false, Option, none, some, String, Result, ◌>>=◌, and_then, List,
  [], ◌∷◌, ◌++◌, length, string_eq, Result-cases, ◌==◌, ==_iff,
}
use fx.Abi.Memory.{Bytes}
use fx.Abi.State.{Host, HttpRequest, HeaderFields, RequestFields, Headers}

-- The documented behaviour of `HeaderMap::append`, as far as a map that is not near its limit goes: the
-- header comes last.
pub record AppendLaws (host : Host) : Type 0 where
  pub limit : ℕ
  pub appended :
      (headers : Headers) (header : String × Bytes)
      → length headers < limit
      → host.append_header headers header ≡ some (headers ++ header ∷ [])

module _ (host : Host) where
  -- The header that is meant, where its name and value are there and valid.
  abbrev pub meant_header : HeaderFields → Option (String × Bytes)
  meant_header h = and_then h.name (λ name. and_then h.value (λ value.
      and_then (host.header_name name)
        (λ key. and_then (host.header_value value) (λ content. some (key, content)))))

  -- The headers of a request, all or none, in their order.
  unfoldable pub meant_headers : List HeaderFields → Option Headers
  meant_headers [] = some []
  meant_headers (h ∷ hs) =
      and_then (meant_header h)
        (λ header. and_then (meant_headers hs) (λ more. some (header ∷ more)))

  -- The request that is meant: every part of it is there and valid.
  abbrev pub meant : RequestFields → Option (HttpRequest (Unit {0}))
  meant r = and_then (and_then r.uri host.parse_uri) (λ uri.
      and_then (and_then r.method host.method_from_bytes) (λ method. and_then r.headers (λ fields.
        and_then (meant_headers fields) (λ headers.
          some (record { uri = uri.0; method = method; headers = headers; body = tt })))))
