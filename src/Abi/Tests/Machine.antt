-- ===== src/Abi/Tests/Machine.antt =====
-- A host to run the interface on: tables are lists of what was inserted, whose holes are what was
-- removed, and messages have the shortest codings that tell the test data apart.
use fx.Prelude.{
  ltb, ℕ, zero, suc, ◌≡◌, ◌≢◌, refl, ap, Option, none, some, String, Result, ok, err, Poll, pending,
  ready, List, [], ◌∷◌, ◌++◌, length, arith, ◌==◌, string_eq, nat_eq, list_eq, if◌then◌else◌,
}
use fx.Abi.Memory.{Bytes}
use fx.Abi.State.{
  SlotMap, SlotLaws, Host, HttpResponse, HttpBody, HttpStreamError, FetchPlan, FetchResultError,
  FetchErrorField, FetchResultField, FrameField, BodyField, RequestFields,
}

module _ {V : Type 0} where
  abbrev pub read : ℕ → List (Option V) → Option V
  read k [] = none
  read zero (v ∷ t) = v
  read (suc k) (v ∷ t) = read k t

  abbrev pub write : ℕ → Option V → List (Option V) → List (Option V)
  write k v [] = []
  write zero v (w ∷ t) = v ∷ t
  write (suc k) v (w ∷ t) = w ∷ write k v t

  read_end : (v : V) (t : List (Option V)) → read (length t) (t ++ some v ∷ []) ≡ some v
  read_end v [] = refl
  read_end v (w ∷ t) = read_end v t

  read_past : (t : List (Option V)) → read (length t) t ≡ none
  read_past [] = refl
  read_past (w ∷ t) = read_past t

  read_left :
      (v w : V) (t : List (Option V)) (k : ℕ)
      → read k t ≡ some w
      → read k (t ++ some v ∷ []) ≡ some w
  read_left v w [] k h = ground arith
  read_left v w (u ∷ t) zero h = h
  read_left v w (u ∷ t) (suc k) h = read_left v w t k h

  read_write :
      (v w : V) (t : List (Option V)) (k : ℕ)
      → read k t ≡ some w
      → read k (write k (some v) t) ≡ some v
  read_write v w [] k h = ground arith
  read_write v w (u ∷ t) zero h = refl
  read_write v w (u ∷ t) (suc k) h = read_write v w t k h

  read_hole : (t : List (Option V)) (k : ℕ) → read k (write k none t) ≡ none
  read_hole [] k = refl
  read_hole (u ∷ t) zero = refl
  read_hole (u ∷ t) (suc k) = read_hole t k

  read_other :
      (v : Option V) (t : List (Option V)) (k j : ℕ) → k ≢ j → read j (write k v t) ≡ read j t
  read_other v [] k j h = refl
  read_other v (u ∷ t) zero zero h = absurd (h refl)
  read_other v (u ∷ t) zero (suc j) h = refl
  read_other v (u ∷ t) (suc k) zero h = refl
  read_other v (u ∷ t) (suc k) (suc j) h = read_other v t k j (λ p. h (ap suc p))

  write_hole : (t : List (Option V)) (k : ℕ) → read k t ≡ none → write k none t ≡ t
  write_hole [] k h = refl
  write_hole (u ∷ t) zero h = ground (arith, h)
  write_hole (u ∷ t) (suc k) h = ap (λ r. u ∷ r) (write_hole t k h)

abbrev pub listed : SlotMap
listed = record {
  Table = λ V. List (Option V);
  insert = λ v t. (t ++ some v ∷ [], length t);
  get = read;
  set = λ k v t. write k (some v) t;
  remove = λ k t. (write k none t, read k t);
}

pub listed_laws : SlotLaws listed
listed_laws = record {
  key = λ k. k;
  inserted = read_end;
  insert_fresh = λ v t. read_past t;
  insert_keeps = λ v t k w h. read_left v w t k h;
  set_self = λ v w t k h. read_write v w t k h;
  set_keeps = λ v t k j h. read_other (some v) t k j h;
  removed = λ t k. refl;
  remove_missing = write_hole;
  remove_self = read_hole;
  remove_keeps = λ t k j h. read_other none t k j h;
}

abbrev ticks : ℕ → ℕ × Poll (Unit {0})
ticks zero = (zero, ready tt)
ticks (suc n) = (n, pending)

abbrev next_chunk : List Bytes → List Bytes × Poll (Option (Result Bytes HttpStreamError))
next_chunk [] = ([], ready none)
next_chunk ([] ∷ rest) = (rest, pending)
next_chunk (bytes ∷ rest) = (rest, ready (some (ok bytes)))

abbrev pub hello : HttpResponse (HttpBody (List Bytes) ℕ)
hello = record { status = 200; headers = []; body = HttpBody.stream ((7 ∷ 8 ∷ []) ∷ []) }

abbrev outcome :
    FetchPlan (List Bytes) ℕ
    → Poll (Result (HttpResponse (HttpBody (List Bytes) ℕ)) FetchResultError)
outcome (FetchPlan.failed e) = ready (err e)
outcome (FetchPlan.external_request _) = ready (ok hello)
outcome _ = pending

abbrev frame_bytes : FrameField → Bytes
frame_bytes FrameField.stream_end = 0 ∷ []
frame_bytes FrameField.response_stream_read_error = 1 ∷ []
frame_bytes (FrameField.bytes bytes) = 2 ∷ bytes

abbrev bytes_frame : Bytes → Option FrameField
bytes_frame [] = none
bytes_frame (zero ∷ rest) = some FrameField.stream_end
bytes_frame (suc zero ∷ rest) = some FrameField.response_stream_read_error
bytes_frame (suc (suc n) ∷ rest) = some (FrameField.bytes rest)

-- A response without headers, or an error, of which there is one.
abbrev result_bytes : FetchResultField → Bytes
result_bytes (ok response) = response.status ∷ response.body ∷ []
result_bytes (err e) = []

abbrev bytes_result : Bytes → Option FetchResultField
bytes_result (status ∷ body ∷ []) =
    some (ok (record { status = status; headers = []; body = body }))
bytes_result _ = some (err FetchErrorField.runtime_internal_error)

abbrev pub fields : RequestFields
fields = record {
  method = some "POST";
  uri = some "example.org";
  headers = some (record { name = some "accept"; value = some (42 ∷ []) } ∷ []);
  body = some (BodyField.host_resource 0);
}

abbrev text_bytes : String → Bytes
text_bytes text = if text == "PORT" then 80 ∷ 79 ∷ [] else 56 ∷ []

abbrev bytes_text : Bytes → Option String
bytes_text bytes = if bytes == (80 ∷ 79 ∷ []) then some "PORT" else some "8"

abbrev pub machine : Host
machine = record {
  slots = listed;
  UnitFuture = ℕ;
  FetchFuture = FetchPlan (List Bytes) ℕ;
  Stream = List Bytes;
  FunctionStream = ℕ;
  sleep = λ millis. millis;
  start = λ plan. plan;
  poll_fetch = λ waker plan. (plan, outcome plan);
  poll_unit = λ waker n. ticks n;
  poll_stream = λ waker chunks. some (next_chunk chunks);
  poll_function = λ waker n. some (n, pending);
  write_request = λ request. 1 ∷ [];
  write_fetch_result = result_bytes;
  write_frame = frame_bytes;
  read_request = λ bytes. some fields;
  read_fetch_result = bytes_result;
  read_frame = bytes_frame;
  write_counter_register = λ request. 1 ∷ [];
  read_counter_register = λ bytes. some (record { name = "hits"; labels = [] });
  read_log_message = λ bytes. none;
  method_from_bytes = λ method. some method;
  parse_uri = λ uri. some (uri, some uri);
  to_lowercase = λ name. name;
  header_name = λ name. some name;
  append_header =
      λ headers header. if ltb (length headers) 24576 then some (headers ++ header ∷ []) else none;
  header_value = λ value. some value;
  from_utf8 = bytes_text;
  as_bytes = text_bytes;
}
