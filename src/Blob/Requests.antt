-- ===== src/Blob/Requests.antt =====
-- The requests of a function to `blob.fx.internal`, fx-runtime/src/effects/blob.rs. A decoder stands
-- for the reading of a whole message, whose failures the source unwraps: `none`, for which the handler
-- panics, and so it does where the task is gone. A response is the value that is encoded.
use fx.Prelude.{
  nat_eq, list_eq, string_eq, ℕ, Bool, Option, none, some, String, Result, ok, err, ◌==◌, ◌≡◌, refl,
  and_then, if◌then◌else◌,
}
use fx.Prelude.Dict.{Dict, lookup}
use fx.Blob.{
  Bytes, BlobStore, BlobError, blob_storage_error, Faults, handle_put, handle_get, handle_delete,
}

pub data BlobGetError : Type 0 where
  bad_request_failed_to_access_memory : BlobGetError
  bad_request_argument_out_of_bounds : BlobGetError
  binding_not_exists : BlobGetError
  get_storage_error : BlobGetError

-- `BlobPutError` and `BlobDeleteError` have this one constructor each.
pub data BlobWriteError : Type 0 where
  write_storage_error : BlobWriteError

pub record ObjectFields : Type 0 where
  pub binding : String
  pub key : Bytes

pub record PutFields : Type 0 where
  pub object : ObjectFields
  pub value : Bytes

pub data BlobResponse : Type 0 where
  got : Result (Option Bytes) BlobGetError → BlobResponse
  was_put : Result (Unit {0}) BlobWriteError → BlobResponse
  was_deleted : Result (Unit {0}) BlobWriteError → BlobResponse
  not_found : (status : ℕ) → BlobResponse

pub record Decoder : Type 0 where
  pub read_get : Bytes → Option ObjectFields
  pub read_put : Bytes → Option PutFields
  pub read_delete : Bytes → Option ObjectFields

-- The conversions of the task's errors.
abbrev get_of : Result (Option Bytes) BlobError → Result (Option Bytes) BlobGetError
get_of (ok v) = ok v
get_of (err blob_storage_error) = err get_storage_error

abbrev write_of : Result (Unit {0}) BlobError → Result (Unit {0}) BlobWriteError
write_of (ok u) = ok u
write_of (err blob_storage_error) = err write_storage_error

-- The task takes messages and answers them, or it is gone.
module _ (blake3 : Bytes → Bytes) (decoder : Decoder) (bindings : Dict String Bytes) (alive : Bool)
    (faults : Faults) where
  unfoldable pub answer_get : BlobStore → Bytes → Option Bytes → Option BlobResponse
  answer_get s key none = some (got (err binding_not_exists))
  answer_get s key (some bucket) =
      if alive then some (got (get_of (handle_get faults bucket key s))) else none

  unfoldable pub answer_put : BlobStore → PutFields → Bytes → Option (BlobStore × BlobResponse)
  answer_put s request bucket =
      if alive
      then (let (s', result) = handle_put blake3 faults bucket request.object.key request.value s in
          some (s', was_put (write_of result)))
      else none

  unfoldable pub answer_delete : BlobStore → Bytes → Bytes → Option (BlobStore × BlobResponse)
  answer_delete s key bucket =
      if alive
      then (let (s', result) = handle_delete faults bucket key s in
          some (s', was_deleted (write_of result)))
      else none

  unfoldable pub handle_blob_get : BlobStore → Bytes → Option (BlobStore × BlobResponse)
  unfolding answer_get
  handle_blob_get s body = and_then (decoder.read_get body) (λ request.
      and_then (answer_get s request.key (lookup request.binding bindings))
        (λ response. some (s, response)))

  unfoldable pub handle_blob_put : BlobStore → Bytes → Option (BlobStore × BlobResponse)
  unfolding answer_put
  handle_blob_put s body =
      and_then (decoder.read_put body)
        (λ request. and_then (lookup request.object.binding bindings) (answer_put s request))

  unfoldable pub handle_blob_delete : BlobStore → Bytes → Option (BlobStore × BlobResponse)
  unfolding answer_delete
  handle_blob_delete s body =
      and_then (decoder.read_delete body)
        (λ request. and_then (lookup request.binding bindings) (answer_delete s request.key))

  unfoldable pub handle_blob_request :
      String → BlobStore → Bytes → Option (BlobStore × BlobResponse)
  unfolding handle_blob_get handle_blob_put handle_blob_delete
  handle_blob_request path s body =
      if path == "/get"
      then handle_blob_get s body
      else if path == "/put"
      then handle_blob_put s body
      else if path == "/delete"
      then handle_blob_delete s body
      else some (s, not_found 404)

  -- A function without a binding is answered when it reads, and makes the request's task panic when it
  -- writes or deletes: a message that names no binding is answered with `binding_not_exists` at `/get`,
  -- and the handlers of `/put` and `/delete` panic.
  pub unbound_requests :
      (s : BlobStore) (body : Bytes) (request : PutFields)
      → lookup request.object.binding bindings ≡ none
      → decoder.read_get body ≡ some request.object
      → decoder.read_put body ≡ some request
      → decoder.read_delete body ≡ some request.object
      → (handle_blob_request "/get" s body ≡ some (s, got (err binding_not_exists)))
        × (handle_blob_request "/put" s body ≡ none)
        × (handle_blob_request "/delete" s body ≡ none)
  unfolding handle_blob_request handle_blob_get handle_blob_put handle_blob_delete answer_get
  unbound_requests s body request unbound g p d =
      (rw (g, unbound) refl, rw (p, unbound) refl, rw (d, unbound) refl)
