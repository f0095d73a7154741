-- ===== src/Abi/Total/Calls.antt =====
-- The host functions on request headers and timers.
use fx.Prelude.{
  ℕ, ◌<◌, refl, arith, inl, inr, Option-cases, string_eq, Poll, pending, ready, [], ◌∷◌,
}
use fx.Abi.Memory.{u64_mod, write_struct}
use fx.Abi.Layout.{word_bytes}
use fx.Abi.State.{Host, SlotLaws, Caller}
use fx.Abi.Handlers.{
  with_bytes, with_headers, with_unit_futures, body_field, fx_unit_future_poll, unit_polled,
  unit_poll_answer, fx_fetch_request_header_serialize_handler,
}
use fx.Abi.Total.{Answers, Answers-of, size, respond-Answers}

module _ {host : Host} (laws : SlotLaws host.slots) (addr : ℕ) (ha : addr < u64_mod) where
  pub header_serialize-Answers :
      (c : Caller host) (id : ℕ)
      → size c.memory < u64_mod
      → Answers c (fx_fetch_request_header_serialize_handler c id addr)
  unfolding fx_fetch_request_header_serialize_handler write_struct word_bytes
  header_serialize-Answers c id hv =
      elim (Option-cases (host.slots.remove id c.data_mut.resource_set.fetch_request_headers).1) [
        | inl p ↦ (
          with_headers c (host.slots.remove id c.data_mut.resource_set.fetch_request_headers).0,
          1,
          ground (arith, p),
          omega arith,
          refl,
        )
        | inr (request, p) ↦
            (let sent =
                host.slots.insert
                  (host.write_request (record {
                    uri = request.uri;
                    method = request.method;
                    headers = request.headers;
                    body = body_field request.body;
                  }))
                  c.data_mut.resource_set.bytes in
              Answers-of c (ground (arith, p)) (
                respond-Answers 0 2 3 (omega arith) (omega arith) (omega arith) c.memory
                  (with_bytes
                    (with_headers c
                      (host.slots.remove id c.data_mut.resource_set.fetch_request_headers).0)
                    sent.0).data_mut
                  addr (word_bytes sent.1) hv ha (omega arith)))
      ]

  unit_answer-Answers :
      (c : Caller host) (tag : ℕ)
      → size c.memory < u64_mod
      → Answers c (unit_poll_answer c addr tag)
  unfolding unit_poll_answer write_struct
  unit_answer-Answers c tag hv =
      respond-Answers 0 1 2 (omega arith) (omega arith) (omega arith) c.memory c.data_mut addr
        (tag ∷ []) hv ha (omega arith)

  unit_polled-Answers :
      (c : Caller host) (id : ℕ) (polled : host.UnitFuture × Poll (Unit {0}))
      → size c.memory < u64_mod
      → Answers c (unit_polled c id addr polled)
  unfolding unit_polled
  unit_polled-Answers c id (future, pending) hv = unit_answer-Answers _ 1 hv
  unit_polled-Answers c id (future, ready tt) hv =
      elim (Option-cases
        (host.slots.remove id (host.slots.set id future c.data_mut.resource_set.unit_futures)).1) [
          | inl p ↦ (
            with_unit_futures c
                (host.slots.remove id
                  (host.slots.set id future c.data_mut.resource_set.unit_futures)).0,
            3,
            ground (arith, p),
            omega arith,
            refl,
          )
          | inr (old, p) ↦ Answers-of c (ground (arith, p)) (
              unit_answer-Answers
                (with_unit_futures c
                  (host.slots.remove id
                    (host.slots.set id future c.data_mut.resource_set.unit_futures)).0)
                0 hv)
        ]

  pub unit_poll-Answers :
      (c : Caller host) (id : ℕ)
      → size c.memory < u64_mod
      → Answers c (fx_unit_future_poll c id addr)
  unfolding fx_unit_future_poll
  unit_poll-Answers c id hv = elim (Option-cases c.data_mut.waker) [
    | inl p ↦ (c, 3, ground (arith, p), omega arith, refl)
    | inr (waker, p) ↦
        elim (Option-cases (host.slots.get id c.data_mut.resource_set.unit_futures)) [
          | inl q ↦ (c, 4, ground (arith, p, q), omega arith, refl)
          | inr (future, q) ↦
              Answers-of c (ground (arith, p, q))
                (unit_polled-Answers c id (host.poll_unit waker future) hv)
        ]
  ]
