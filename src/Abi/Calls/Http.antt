-- ===== src/Abi/Calls/Http.antt =====
-- The same of the host functions on fetch results, bodies and frames.
use fx.Prelude.{ℕ, ◌+◌, ◌≤◌, ◌<◌, ◌≡◌, Option, none, some, Result, pending, ready, length, arith}
use fx.Abi.Memory.{Bytes, u64_mod, overwrite}
use fx.Abi.Layout.{poll_result_bytes, serialize_result_bytes}
use fx.Abi.State.{Host, FunctionInstanceState, HttpStreamError, Body, FetchResult}
use fx.Abi.Handlers.{with_bytes}
use fx.Abi.Handlers.Http.{
  with_bodies, with_frames, with_futures, with_results, poll_body, send_bytes, fetch_polled,
  fetch_poll_answer, body_polled, body_poll_answer, fx_http_body_poll_frame,
  fx_fetch_result_future_poll,
}
use fx.Abi.Calls.{at, respond-write_struct}

-- The answers in memory.
abbrev pub tagged : ℕ → ℕ → Bytes
tagged tag id = poll_result_bytes (record { tag = tag; resource_id = id })

abbrev pub located : ℕ → Bytes → Bytes
located id bytes =
    serialize_result_bytes (record { bytes_resource_id = id; bytes_length = length bytes })

module _ {host : Host} (view : Bytes) (s : FunctionInstanceState host)
    (hv : length view < u64_mod) where
  pub poll_frame-ready :
      (id addr waker : ℕ) (body body' : Body host) (frame : Option (Result Bytes HttpStreamError))
      → s.waker ≡ some waker
      → host.slots.get id s.resource_set.http_bodies ≡ some body
      → poll_body host waker body ≡ some (body', ready frame)
      → addr + 16 ≤ length view
      → fx_http_body_poll_frame (at view s) id addr
        ≡ some (
          with_frames
              (with_bodies
                (at
                  (overwrite addr
                    (tagged 0 (host.slots.insert frame s.resource_set.http_frames).1)
                    view)
                  s)
                (host.slots.set id body' s.resource_set.http_bodies))
              (host.slots.insert frame s.resource_set.http_frames).0,
          0,
        )
  unfolding fx_http_body_poll_frame body_polled body_poll_answer poll_result_bytes
  poll_frame-ready id addr waker body body' frame hw hb hp fits = ground (
    arith,
    hw,
    hb,
    hp,
    respond-write_struct view
        (with_frames (with_bodies (at view s) (host.slots.set id body' s.resource_set.http_bodies))
          (host.slots.insert frame s.resource_set.http_frames).0).data_mut
        hv 0 1 2 addr (tagged 0 (host.slots.insert frame s.resource_set.http_frames).1) fits,
  )

  pub poll_frame-pending :
      (id addr waker : ℕ) (body body' : Body host)
      → s.waker ≡ some waker
      → host.slots.get id s.resource_set.http_bodies ≡ some body
      → poll_body host waker body ≡ some (body', pending)
      → addr + 16 ≤ length view
      → fx_http_body_poll_frame (at view s) id addr
        ≡ some (
          with_bodies
              (at (overwrite addr (tagged 1 0) view) s)
              (host.slots.set id body' s.resource_set.http_bodies),
          0,
        )
  unfolding fx_http_body_poll_frame body_polled body_poll_answer poll_result_bytes
  poll_frame-pending id addr waker body body' hw hb hp fits = ground (
    arith,
    hw,
    hb,
    hp,
    respond-write_struct view
        (with_bodies (at view s) (host.slots.set id body' s.resource_set.http_bodies)).data_mut hv 0
        1 2 addr (tagged 1 0) fits,
  )

  pub poll_frame-missing :
      (id addr waker : ℕ)
      → s.waker ≡ some waker
      → host.slots.get id s.resource_set.http_bodies ≡ none
      → addr + 16 ≤ length view
      → fx_http_body_poll_frame (at view s) id addr
        ≡ some (at (overwrite addr (tagged 2 0) view) s, 0)
  unfolding fx_http_body_poll_frame body_poll_answer poll_result_bytes
  poll_frame-missing id addr waker hw hb fits =
      ground (arith, hw, hb, respond-write_struct view s hv 0 1 2 addr (tagged 2 0) fits)

  pub send_bytes-sent :
      (success no_memory beyond addr : ℕ) (bytes : Bytes)
      → addr + 16 ≤ length view
      → send_bytes (at view s) success no_memory beyond addr bytes
        ≡ some (
          with_bytes
              (at
                (overwrite addr
                  (located (host.slots.insert bytes s.resource_set.bytes).1 bytes)
                  view)
                s)
              (host.slots.insert bytes s.resource_set.bytes).0,
          success,
        )
  unfolding send_bytes serialize_result_bytes
  send_bytes-sent success no_memory beyond addr bytes fits =
      respond-write_struct view
        (with_bytes (at view s) (host.slots.insert bytes s.resource_set.bytes).0).data_mut hv
        success no_memory beyond addr
        (located (host.slots.insert bytes s.resource_set.bytes).1 bytes) fits

  pub fetch_poll-ready :
      (id addr waker : ℕ) (future future' : host.FetchFuture) (result : FetchResult host)
      → s.waker ≡ some waker
      → host.slots.get id s.resource_set.fetch_result_futures ≡ some future
      → host.poll_fetch waker future ≡ (future', ready result)
      → (rest : host.slots.Table host.FetchFuture)
      → host.slots.remove id (host.slots.set id future' s.resource_set.fetch_result_futures)
        ≡ (rest, some future')
      → addr + 16 ≤ length view
      → fx_fetch_result_future_poll (at view s) id addr
        ≡ some (
          with_results
              (with_futures
                (at
                  (overwrite addr
                    (tagged 0 (host.slots.insert result s.resource_set.fetch_results).1)
                    view)
                  s)
                rest)
              (host.slots.insert result s.resource_set.fetch_results).0,
          0,
        )
  unfolding fx_fetch_result_future_poll fetch_polled fetch_poll_answer poll_result_bytes
  fetch_poll-ready id addr waker future future' result hw hf hp rest hr fits = ground (
    arith,
    hw,
    hf,
    hp,
    hr,
    respond-write_struct view
        (with_results (with_futures (at view s) rest)
          (host.slots.insert result s.resource_set.fetch_results).0).data_mut
        hv 0 1 2 addr (tagged 0 (host.slots.insert result s.resource_set.fetch_results).1) fits,
  )
