-- ===== src/Abi/Total/All.antt =====
-- The host functions on the environment and on counters, and the calls that write an answer as one step.
use fx.Prelude.{ℕ, ◌<◌, refl, Option, length, arith, inl, inr, Option-cases, string_eq}
use fx.Prelude.Dict.{lookup}
use fx.Metrics.{MetricKey, counter_register}
use fx.Abi.Memory.{u64_mod, write_struct}
use fx.Abi.Layout.{word_bytes}
use fx.Abi.State.{Host, SlotLaws, Caller}
use fx.Abi.Handlers.{
  fx_bytes_len_handler, fx_bytes_move_handler, fx_unit_future_poll,
  fx_fetch_request_header_serialize_handler,
}
use fx.Abi.Handlers.Http.{
  fx_fetch_result_future_poll, fx_fetch_result_serialize, fx_http_body_poll_frame,
  fx_http_frame_serialize,
}
use fx.Abi.Handlers.Services.{
  request_slice, counter_registered, metric_key_of, fx_metrics_counter_register_handler,
  fx_env_len_handler, fx_env_get_handler,
}
use fx.Abi.Total.{
  Answers, StreamReturns, Answers-of, IsAddressable, respond-Answers, bytes_len-Answers,
  bytes_move-Answers,
}
use fx.Abi.Total.Calls.{header_serialize-Answers, unit_poll-Answers}
use fx.Abi.Total.Http.{
  fetch_poll-Answers, fetch_serialize-Answers, body_poll-Answers, frame_serialize-Answers,
}

module _ {host : Host} (c : Caller host) (valid : IsAddressable c) (addr : ℕ)
    (ha : addr < u64_mod) where
  registered-Answers : (key : MetricKey) → Answers c (counter_registered c addr key)
  unfolding counter_registered write_struct word_bytes
  registered-Answers key =
      respond-Answers 0 1 3 (omega arith) (omega arith) (omega arith) c.memory
        (record c.data_mut { metrics = (counter_register c.data_mut.metrics key).0 }) addr
        (word_bytes (counter_register c.data_mut.metrics key).1) valid.memory_short ha (omega arith)

  register-Answers : (ptr len : ℕ) → Answers c (fx_metrics_counter_register_handler c ptr len addr)
  unfolding fx_metrics_counter_register_handler
  register-Answers ptr len = elim (Option-cases (request_slice c ptr len)) [
    | inl p ↦ (c, 1, ground (arith, p), omega arith, refl)
    | inr (bytes, p) ↦ elim (Option-cases (host.read_counter_register bytes)) [
      | inl q ↦ (c, 2, ground (arith, p, q), omega arith, refl)
      | inr (request, q) ↦
          Answers-of c (ground (arith, p, q)) (registered-Answers (metric_key_of request))
    ]
  ]

  env_len-Answers : (ptr len : ℕ) → Answers c (fx_env_len_handler c ptr len addr)
  unfolding fx_env_len_handler write_struct word_bytes
  env_len-Answers ptr len = elim (Option-cases (request_slice c ptr len)) [
    | inl p ↦ (c, 1, ground (arith, p), omega arith, refl)
    | inr (bytes, p) ↦ elim (Option-cases (host.from_utf8 bytes)) [
      | inl q ↦ (c, 2, ground (arith, p, q), omega arith, refl)
      | inr (key, q) ↦ elim (Option-cases (lookup key c.data_mut.env)) [
        | inl u ↦ (c, 3, ground (arith, p, q, u), omega arith, refl)
        | inr (value, u) ↦ Answers-of c (ground (arith, p, q, u)) (
            respond-Answers 0 1 4 (omega arith) (omega arith) (omega arith) c.memory c.data_mut addr
              (word_bytes (length (host.as_bytes value))) valid.memory_short ha (omega arith))
      ]
    ]
  ]

  env_get-Answers : (ptr len : ℕ) → Answers c (fx_env_get_handler c ptr len addr)
  unfolding fx_env_get_handler
  env_get-Answers ptr len = elim (Option-cases (request_slice c ptr len)) [
    | inl p ↦ (c, 1, ground (arith, p), omega arith, refl)
    | inr (bytes, p) ↦ elim (Option-cases (host.from_utf8 bytes)) [
      | inl q ↦ (c, 2, ground (arith, p, q), omega arith, refl)
      | inr (key, q) ↦ elim (Option-cases (lookup key c.data_mut.env)) [
        | inl u ↦ (c, 3, ground (arith, p, q, u), omega arith, refl)
        | inr (value, u) ↦ Answers-of c (ground (arith, p, q, u)) (
            respond-Answers 0 1 4 (omega arith) (omega arith) (omega arith) c.memory c.data_mut addr
              (host.as_bytes value) valid.memory_short ha (valid.env_short key value u))
      ]
    ]
  ]

-- The calls that write their answer at an address of the function, with their other arguments.
pub data HostCall : Type 0 where
  bytes_len bytes_move fetch_request_header_serialize unit_future_poll : ℕ → HostCall
  fetch_result_future_poll fetch_result_serialize http_body_poll_frame : ℕ → HostCall
  http_frame_serialize : ℕ → HostCall
  metrics_counter_register env_len env_get : ℕ → ℕ → HostCall

unfoldable pub run : {host : Host} → HostCall → Caller host → ℕ → Option (Caller host × ℕ)
run (bytes_len id) c addr = fx_bytes_len_handler c id addr
run (bytes_move id) c addr = fx_bytes_move_handler c id addr
run (fetch_request_header_serialize id) c addr = fx_fetch_request_header_serialize_handler c id addr
run (unit_future_poll id) c addr = fx_unit_future_poll c id addr
run (fetch_result_future_poll id) c addr = fx_fetch_result_future_poll c id addr
run (fetch_result_serialize id) c addr = fx_fetch_result_serialize c id addr
run (http_body_poll_frame id) c addr = fx_http_body_poll_frame c id addr
run (http_frame_serialize id) c addr = fx_http_frame_serialize c id addr
run (metrics_counter_register ptr len) c addr = fx_metrics_counter_register_handler c ptr len addr
run (env_len ptr len) c addr = fx_env_len_handler c ptr len addr
run (env_get ptr len) c addr = fx_env_get_handler c ptr len addr

-- The body that a call polls, if it polls one, is one whose step does not panic.
abbrev pub PolledReturns : {host : Host} → HostCall → Caller host → Type 0
PolledReturns (http_body_poll_frame id) c = StreamReturns c id
PolledReturns _ c = Unit

-- None of the eleven calls that write their answer to the function's memory panics, whatever ids and
-- addresses it passes and whatever its module exports as memory: each returns one of the codes 0 to 4
-- and leaves the memory as large as it was; for slot maps that keep their laws, an instance whose
-- memory, bytes and environment have lengths that fit a `u64`, and, of a call that polls a body, a
-- body whose own step does not panic.
pub run-Answers :
    {host : Host}
    → SlotLaws host.slots
    → (call : HostCall) (c : Caller host) → IsAddressable c
    → PolledReturns call c
    → (addr : ℕ) → addr < u64_mod
    → Answers c (run call c addr)
unfolding run
run-Answers laws (bytes_len id) c valid returns addr ha = bytes_len-Answers laws c valid addr ha id
run-Answers laws (bytes_move id) c valid returns addr ha =
    bytes_move-Answers laws c valid addr ha id
run-Answers laws (fetch_request_header_serialize id) c valid returns addr ha =
    header_serialize-Answers laws addr ha c id valid.memory_short
run-Answers laws (unit_future_poll id) c valid returns addr ha =
    unit_poll-Answers laws addr ha c id valid.memory_short
run-Answers laws (fetch_result_future_poll id) c valid returns addr ha =
    fetch_poll-Answers addr ha c id valid.memory_short
run-Answers laws (fetch_result_serialize id) c valid returns addr ha =
    fetch_serialize-Answers addr ha c id valid.memory_short
run-Answers laws (http_body_poll_frame id) c valid returns addr ha =
    body_poll-Answers addr ha c id returns valid.memory_short
run-Answers laws (http_frame_serialize id) c valid returns addr ha =
    frame_serialize-Answers addr ha c id valid.memory_short
run-Answers laws (metrics_counter_register ptr len) c valid returns addr ha =
    register-Answers c valid addr ha ptr len
run-Answers laws (env_len ptr len) c valid returns addr ha = env_len-Answers c valid addr ha ptr len
run-Answers laws (env_get ptr len) c valid returns addr ha = env_get-Answers c valid addr ha ptr len
