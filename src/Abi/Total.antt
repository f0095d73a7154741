-- ===== src/Abi/Total.antt =====
-- Every host function that answers through the function's memory, on any instance and any arguments.
pub mod Calls
pub mod Http
pub mod All
use fx.Prelude.{
  ◌∙◌, ℕ, ◌+◌, ◌≤◌, ◌<◌, ◌≡◌, refl, Option, none, some, Result, ok, err, length, arith, leb,
  Bool-cases, inl, inr, Option-cases, String, string_eq, Poll, pending, ready, Result-cases,
}
use fx.Prelude.Dict.{lookup}
use fx.Abi.Memory.{
  Bytes, u64_mod, Export, absent, other_kind, linear, from_caller, copy_from_slice, write_struct,
  overwrite, out_of_bounds, FunctionMemoryAccessError,
}
use fx.Abi.Memory.Bounds.{write_bounds, length-overwrite}
use fx.Abi.Layout.{word_bytes, poll_result_bytes, serialize_result_bytes}
use fx.Abi.State.{Host, SlotLaws, Caller, FunctionInstanceState, Body, HttpStreamError}
use fx.Abi.Handlers.{
  with_bytes, respond, written, fx_bytes_len_handler, fx_bytes_move_handler, fx_unit_future_poll,
  unit_polled, unit_poll_answer, fx_fetch_request_header_serialize_handler,
}
use fx.Abi.Handlers.Http.{
  send_bytes, fetch_poll_answer, fetch_polled, fx_fetch_result_future_poll,
  fx_fetch_result_serialize, body_poll_answer, body_polled, fx_http_body_poll_frame,
  fx_http_frame_serialize, result_field, poll_body,
}
use fx.Abi.Handlers.Services.{
  request_slice, counter_registered, fx_metrics_counter_register_handler, fx_env_len_handler,
  fx_env_get_handler,
}

-- The size of the memory, 0 where there is none.
abbrev pub size : Export → ℕ
size absent = 0
size other_kind = 0
size (linear view) = length view

-- The call returns one of the codes 0 to 4, and leaves the memory as large as it was.
abbrev pub Answers : {host : Host} → Caller host → Option (Caller host × ℕ) → Type 0
Answers {host} c o =
    (c' : Caller host) × (code : ℕ) × (o ≡ some (c', code))
    × (code ≤ 4)
    × (size c'.memory ≡ size c.memory)

module _ {host : Host} (success no_memory beyond : ℕ) (hs : success ≤ 4) (hn : no_memory ≤ 4)
    (hb : beyond ≤ 4) where
  pub respond-Answers :
      (memory : Export) (s : FunctionInstanceState host) (addr : ℕ) (bytes : Bytes)
      → size memory < u64_mod
      → addr < u64_mod
      → length bytes < u64_mod
      → Answers
          (record { memory = memory; data_mut = s })
          (respond
            (record { memory = memory; data_mut = s })
            success
            no_memory
            beyond
            (λ view. copy_from_slice view addr (length bytes) bytes))
  unfolding respond from_caller
  respond-Answers absent s addr bytes hv ha hl = (_, no_memory, refl, hn, refl)
  respond-Answers other_kind s addr bytes hv ha hl = (_, no_memory, refl, hn, refl)
  respond-Answers (linear view) s addr bytes hv ha hl =
      elim (Bool-cases (leb (addr + length bytes) (length view))) [
        | inl inside ↦ (
          record { memory = linear (overwrite addr bytes view); data_mut = s },
          success,
          rw (write_bounds view addr bytes hv ha hl, inside) refl,
          hs,
          length-overwrite addr bytes view,
        )
        | inr outside ↦ (
          record { memory = linear view; data_mut = s },
          beyond,
          rw (write_bounds view addr bytes hv ha hl, outside) refl,
          hb,
          refl,
        )
      ]

pub Answers-of :
    {host : Host} (c : Caller host) {o o' : Option (Caller host × ℕ)}
    → o ≡ o'
    → Answers c o'
    → Answers c o
Answers-of c p (c', code, q, bound, same) = (c', code, p ∙ q, bound, same)

-- A step of the body under the id, if there is one, does not panic.
abbrev pub StreamReturns : {host : Host} → Caller host → ℕ → Type 0
StreamReturns {host} c id =
    (waker : ℕ) (body : Body host)
    → c.data_mut.waker ≡ some waker
    → host.slots.get id c.data_mut.resource_set.http_bodies ≡ some body
    → (step : Body host × Poll (Option (Result Bytes HttpStreamError))) × (poll_body host waker body
        ≡ some step)

-- What every instance keeps: lengths that fit a `u64`.
pub record IsAddressable {host : Host} (c : Caller host) : Type 0 where
  pub memory_short : size c.memory < u64_mod
  pub bytes_short :
      (id : ℕ) (v : Bytes)
      → host.slots.get id c.data_mut.resource_set.bytes ≡ some v
      → length v < u64_mod
  pub env_short :
      (key value : String)
      → lookup key c.data_mut.env ≡ some value
      → length (host.as_bytes value) < u64_mod

module _ {host : Host} (laws : SlotLaws host.slots) (c : Caller host) (valid : IsAddressable c)
    (addr : ℕ) (ha : addr < u64_mod) where
  pub bytes_len-Answers : (id : ℕ) → Answers c (fx_bytes_len_handler c id addr)
  unfolding fx_bytes_len_handler write_struct word_bytes
  bytes_len-Answers id = elim (Option-cases (host.slots.get id c.data_mut.resource_set.bytes)) [
    | inl p ↦ (c, 1, ground (arith, p), omega arith, refl)
    | inr (v, p) ↦ Answers-of c (ground (arith, p)) (
        respond-Answers 0 1 3 (omega arith) (omega arith) (omega arith) c.memory c.data_mut addr
          (word_bytes (length v)) valid.memory_short ha (omega arith))
  ]

  pub bytes_move-Answers : (id : ℕ) → Answers c (fx_bytes_move_handler c id addr)
  unfolding fx_bytes_move_handler
  bytes_move-Answers id = elim (Option-cases (host.slots.get id c.data_mut.resource_set.bytes)) [
    | inl p ↦ (
      with_bytes c (host.slots.remove id c.data_mut.resource_set.bytes).0,
      3,
      ground (arith, laws.removed c.data_mut.resource_set.bytes id, p),
      omega arith,
      refl,
    )
    | inr (v, p) ↦ Answers-of c (ground (arith, laws.removed c.data_mut.resource_set.bytes id, p)) (
        respond-Answers 0 1 2 (omega arith) (omega arith) (omega arith) c.memory
          (with_bytes c (host.slots.remove id c.data_mut.resource_set.bytes).0).data_mut addr v
          valid.memory_short ha (valid.bytes_short id v p))
  ]
