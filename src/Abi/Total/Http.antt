-- ===== src/Abi/Total/Http.antt =====
-- The host functions on fetch results, bodies and frames.
use fx.Prelude.{
  ℕ, ◌≤◌, ◌<◌, ◌≡◌, refl, Option, Result, ok, err, length, arith, inl, inr, Option-cases, Poll,
  pending, ready,
}
use fx.Abi.Memory.{Bytes, u64_mod, write_struct}
use fx.Abi.Layout.{PollResult, poll_result_bytes, serialize_result_bytes}
use fx.Abi.State.{Host, Caller, Body, HttpStreamError, FetchResult}
use fx.Abi.Handlers.{with_bytes}
use fx.Abi.Handlers.Http.{
  with_futures, with_results, with_frames, send_bytes, fetch_poll_answer, fetch_polled,
  fx_fetch_result_future_poll, fx_fetch_result_serialize, body_poll_answer, body_polled,
  fx_http_body_poll_frame, fx_http_frame_serialize, result_field, frame_field,
}
use fx.Abi.Total.{StreamReturns, Answers, Answers-of, size, respond-Answers}

module _ {host : Host} (addr : ℕ) (ha : addr < u64_mod) where
  fetch_answer-Answers :
      (c : Caller host) (r : PollResult)
      → size c.memory < u64_mod
      → Answers c (fetch_poll_answer c addr r)
  unfolding fetch_poll_answer write_struct poll_result_bytes
  fetch_answer-Answers c r hv =
      respond-Answers 0 1 2 (omega arith) (omega arith) (omega arith) c.memory c.data_mut addr
        (poll_result_bytes r) hv ha (omega arith)

  fetch_polled-Answers :
      (c : Caller host) (id : ℕ) (polled : host.FetchFuture × Poll (FetchResult host))
      → size c.memory < u64_mod
      → Answers c (fetch_polled c id addr polled)
  unfolding fetch_polled
  fetch_polled-Answers c id (future, pending) hv = fetch_answer-Answers _ _ hv
  fetch_polled-Answers c id (future, ready result) hv =
      elim (Option-cases
        (host.slots.remove id
          (host.slots.set id future c.data_mut.resource_set.fetch_result_futures)).1) [
            | inl p ↦ (
              with_futures c
                  (host.slots.remove id
                    (host.slots.set id future c.data_mut.resource_set.fetch_result_futures)).0,
              3,
              ground (arith, p),
              omega arith,
              refl,
            )
            | inr (old, p) ↦ Answers-of c (ground (arith, p)) (
                fetch_answer-Answers
                  (with_results
                    (with_futures c
                      (host.slots.remove id
                        (host.slots.set id future c.data_mut.resource_set.fetch_result_futures)).0)
                    (host.slots.insert result c.data_mut.resource_set.fetch_results).0)
                  (record {
                    tag = 0;
                    resource_id =
                        (host.slots.insert result c.data_mut.resource_set.fetch_results).1;
                  })
                  hv)
          ]

  pub fetch_poll-Answers :
      (c : Caller host) (id : ℕ)
      → size c.memory < u64_mod
      → Answers c (fx_fetch_result_future_poll c id addr)
  unfolding fx_fetch_result_future_poll
  fetch_poll-Answers c id hv = elim (Option-cases c.data_mut.waker) [
    | inl p ↦ (c, 3, ground (arith, p), omega arith, refl)
    | inr (waker, p) ↦
        elim (Option-cases (host.slots.get id c.data_mut.resource_set.fetch_result_futures)) [
          | inl q ↦ (c, 4, ground (arith, p, q), omega arith, refl)
          | inr (future, q) ↦
              Answers-of c (ground (arith, p, q))
                (fetch_polled-Answers c id (host.poll_fetch waker future) hv)
        ]
  ]

  send_bytes-Answers :
      (success no_memory beyond : ℕ)
      → success ≤ 4
      → no_memory ≤ 4
      → beyond ≤ 4
      → (c : Caller host) (bytes : Bytes) → size c.memory < u64_mod
      → Answers c (send_bytes c success no_memory beyond addr bytes)
  unfolding send_bytes write_struct serialize_result_bytes
  send_bytes-Answers success no_memory beyond hs hn hb c bytes hv =
      respond-Answers success no_memory beyond hs hn hb c.memory
        (with_bytes c (host.slots.insert bytes c.data_mut.resource_set.bytes).0).data_mut addr
        (serialize_result_bytes (record {
          bytes_resource_id = (host.slots.insert bytes c.data_mut.resource_set.bytes).1;
          bytes_length = length bytes;
        }))
        hv ha (omega arith)

  result_field-memory :
      (c : Caller host) (r : FetchResult host) → (result_field c r).0.memory ≡ c.memory
  unfolding result_field
  result_field-memory c (ok response) = refl
  result_field-memory c (err e) = refl

  pub fetch_serialize-Answers :
      (c : Caller host) (id : ℕ)
      → size c.memory < u64_mod
      → Answers c (fx_fetch_result_serialize c id addr)
  unfolding fx_fetch_result_serialize
  fetch_serialize-Answers c id hv =
      elim (Option-cases (host.slots.remove id c.data_mut.resource_set.fetch_results).1) [
        | inl p ↦ (
          with_results c (host.slots.remove id c.data_mut.resource_set.fetch_results).0,
          4,
          ground (arith, p),
          omega arith,
          refl,
        )
        | inr (r, p) ↦ Answers-of c (ground (arith, p)) (sent r)
      ]
    where
      sent :
          (r : FetchResult host)
          → Answers c (
              send_bytes
                (result_field
                  (with_results c (host.slots.remove id c.data_mut.resource_set.fetch_results).0)
                  r).0
                0
                1
                2
                addr
                (host.write_fetch_result
                  (result_field
                    (with_results c (host.slots.remove id c.data_mut.resource_set.fetch_results).0)
                    r).1))
      sent (ok response) = send_bytes-Answers 0 1 2 (omega arith) (omega arith) (omega arith) _ _ hv
      sent (err e) = send_bytes-Answers 0 1 2 (omega arith) (omega arith) (omega arith) _ _ hv

  body_answer-Answers :
      (c : Caller host) (r : PollResult)
      → size c.memory < u64_mod
      → Answers c (body_poll_answer c addr r)
  unfolding body_poll_answer write_struct poll_result_bytes
  body_answer-Answers c r hv =
      respond-Answers 0 1 2 (omega arith) (omega arith) (omega arith) c.memory c.data_mut addr
        (poll_result_bytes r) hv ha (omega arith)

  body_polled-Answers :
      (c : Caller host) (id : ℕ) (polled : Body host × Poll (Option (Result Bytes HttpStreamError)))
      → size c.memory < u64_mod
      → Answers c (body_polled c id addr polled)
  unfolding body_polled
  body_polled-Answers c id (body, pending) hv = body_answer-Answers _ _ hv
  body_polled-Answers c id (body, ready frame) hv = body_answer-Answers _ _ hv

  pub body_poll-Answers :
      (c : Caller host) (id : ℕ)
      → StreamReturns c id
      → size c.memory < u64_mod
      → Answers c (fx_http_body_poll_frame c id addr)
  unfolding fx_http_body_poll_frame
  body_poll-Answers c id returns hv = elim (Option-cases c.data_mut.waker) [
    | inl p ↦ (c, 3, ground (arith, p), omega arith, refl)
    | inr (waker, p) ↦ elim (Option-cases (host.slots.get id c.data_mut.resource_set.http_bodies)) [
      | inl q ↦
          Answers-of c (ground (arith, p, q))
            (body_answer-Answers c (record { tag = 2; resource_id = 0 }) hv)
      | inr (body, q) ↦
          let (step, r) = returns waker body p q in
          Answers-of c (ground (arith, p, q, r)) (body_polled-Answers c id step hv)
    ]
  ]

  pub frame_serialize-Answers :
      (c : Caller host) (id : ℕ)
      → size c.memory < u64_mod
      → Answers c (fx_http_frame_serialize c id addr)
  unfolding fx_http_frame_serialize
  frame_serialize-Answers c id hv =
      elim (Option-cases (host.slots.remove id c.data_mut.resource_set.http_frames).1) [
        | inl p ↦ (
          with_frames c (host.slots.remove id c.data_mut.resource_set.http_frames).0,
          1,
          ground (arith, p),
          omega arith,
          refl,
        )
        | inr (frame, p) ↦ Answers-of c (ground (arith, p)) (
            send_bytes-Answers 0 2 3 (omega arith) (omega arith) (omega arith)
              (with_frames c (host.slots.remove id c.data_mut.resource_set.http_frames).0)
              (host.write_frame (frame_field frame)) hv)
      ]
