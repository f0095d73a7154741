-- ===== src/Abi/Fetched/Polled.antt =====
-- One poll of a function's fetch future, whose host future is ready.
use fx.Prelude.{ℕ, ◌+◌, ◌≤◌, ◌<◌, ◌≡◌, refl, some, Result, ready, length, arith, ap, ◌∙◌}
use fx.Abi.Memory.{Bytes, u64_mod, overwrite}
use fx.Abi.Memory.Bounds.{length-overwrite}
use fx.Abi.State.{Host, SlotLaws, FunctionInstanceState, HttpResponse, FetchResult, Caller}
use fx.Abi.Handlers.{with_bytes}
use fx.Abi.Handlers.Http.{
  with_bodies, with_futures, with_results, fx_fetch_result_future_poll, fx_fetch_result_serialize,
}
use fx.Abi.Sdk.{zeros, poke, peek}
use fx.Abi.Layout.{poll_result_of}
use fx.Abi.Sdk.Http.{FetchError, receive_result, poll_fetch}
use fx.Abi.Calls.{at}
use fx.Abi.Calls.Http.{tagged, located, send_bytes-sent, fetch_poll-ready}
use fx.Abi.Stream.{tagged_at, located_at, receive_bytes-found}
use fx.Abi.Fetched.{bodies_after, seen_result, field_after, response-field, result_field-at}

module _ {host : Host} (laws : SlotLaws host.slots) (slot slot' : ℕ) (buffer : ℕ → ℕ) where
  module _ (view : Bytes) (s : FunctionInstanceState host) (hv : length view < u64_mod)
      (result_id : ℕ) (r : FetchResult host)
      (h : host.slots.get result_id s.resource_set.fetch_results ≡ some r) where
    abbrev message : Bytes
    message = host.write_fetch_result (field_after s r)

    abbrev message_id : ℕ
    message_id = (host.slots.insert message s.resource_set.bytes).1

    -- The state in which the message is sent: the result is gone, its body is a resource.
    abbrev opened : FunctionInstanceState host
    opened =
        (with_bodies
          (with_results (at view s) (host.slots.remove result_id s.resource_set.fetch_results).0)
          (bodies_after s r)).data_mut

    abbrev answered : Bytes
    answered = overwrite slot' (located message_id message) (overwrite slot' (zeros 16) view)

    abbrev received : Bytes
    received =
        overwrite (buffer (length message)) message
          (overwrite (buffer (length message)) (zeros (length message)) answered)

    length-answered : length answered ≡ length view
    length-answered = rw (length-overwrite, length-overwrite) refl

    length-received : length received ≡ length view
    length-received = rw (length-overwrite, length-overwrite) length-answered

    module _ (decodes : host.read_fetch_result message ≡ some (field_after s r))
        (small : message_id < u64_mod) (hs : slot' + 16 ≤ length view)
        (hb : buffer (length message) + length message ≤ length view) where
      serialized :
          fx_fetch_result_serialize (at (overwrite slot' (zeros 16) view) s) result_id slot'
          ≡ some (
            with_bytes (at answered opened) (host.slots.insert message s.resource_set.bytes).0,
            0,
          )
      unfolding fx_fetch_result_serialize
      serialized = ground (
        arith,
        laws.removed s.resource_set.fetch_results result_id,
        h,
        result_field-at
            (with_results (at view s)
              (host.slots.remove result_id s.resource_set.fetch_results).0).data_mut
            (overwrite slot' (zeros 16) view) r,
        send_bytes-sent (overwrite slot' (zeros 16) view) opened (rw length-overwrite hv) 0 1 2
            slot' message (rw length-overwrite hs),
      )

      receive_result-found :
          receive_result slot slot' buffer (at view s) result_id
          ≡ some (
            with_bytes
                (at received opened)
                (host.slots.remove message_id (host.slots.insert message s.resource_set.bytes).0).0,
            seen_result s r,
          )
      unfolding receive_result
      receive_result-found = ground (
        arith,
        serialized,
        located_at (overwrite slot' (zeros 16) view) slot' message_id message
            (rw length-overwrite hs) small (omega arith),
        receive_bytes-found laws slot slot' buffer answered
            (with_bytes (at answered opened)
              (host.slots.insert message s.resource_set.bytes).0).data_mut
            (rw length-answered hv) message_id message (laws.inserted message s.resource_set.bytes)
            (rw length-answered hb),
        decodes,
        response-field s r,
      )

-- The three calls of a poll that finds its result.
poll_fetch-calls :
    {host : Host} (slot slot' : ℕ) (buffer : ℕ → ℕ) (c c' : Caller host) (id result_id : ℕ)
    (received : Caller host × Result (HttpResponse ℕ) FetchError)
    → fx_fetch_result_future_poll (poke c slot (zeros 16)) id slot ≡ some (c', 0)
    → poll_result_of (peek c' slot 16) ≡ record { tag = 0; resource_id = result_id }
    → receive_result slot slot' buffer c' result_id ≡ some received
    → poll_fetch slot slot' buffer c id ≡ some (received.0, ready received.1)
unfolding poll_fetch
poll_fetch-calls slot slot' buffer c c' id result_id received first read second =
    ground (arith, first, read, second)

module _ {host : Host} (laws : SlotLaws host.slots) (slot slot' : ℕ) (buffer : ℕ → ℕ) (view : Bytes)
    (s : FunctionInstanceState host) (hv : length view < u64_mod) (hs : slot + 16 ≤ length view)
    (id waker : ℕ) (hw : s.waker ≡ some waker) (future future' : host.FetchFuture)
    (hf : host.slots.get id s.resource_set.fetch_result_futures ≡ some future)
    (r : FetchResult host) (polled : host.poll_fetch waker future ≡ (future', ready r)) where
  abbrev zeroed : Bytes
  zeroed = overwrite slot (zeros 16) view

  abbrev rest : host.slots.Table host.FetchFuture
  rest = (host.slots.remove id (host.slots.set id future' s.resource_set.fetch_result_futures)).0

  abbrev result_id : ℕ
  result_id = (host.slots.insert r s.resource_set.fetch_results).1

  -- The state in which the result waits.
  abbrev resolved : FunctionInstanceState host
  resolved =
      (with_results (with_futures (at view s) rest)
        (host.slots.insert r s.resource_set.fetch_results).0).data_mut

  abbrev noticed : Bytes
  noticed = overwrite slot (tagged 0 result_id) zeroed

  length-zeroed : length zeroed ≡ length view
  length-zeroed = length-overwrite slot (zeros 16) view

  length-noticed : length noticed ≡ length view
  length-noticed = rw length-overwrite length-zeroed

  taken :
      host.slots.remove id (host.slots.set id future' s.resource_set.fetch_result_futures)
      ≡ (rest, some future')
  taken =
      ap (λ o. (rest, o))
        (laws.removed (host.slots.set id future' s.resource_set.fetch_result_futures) id
          ∙ laws.set_self future' future s.resource_set.fetch_result_futures id hf)

  waits : host.slots.get result_id resolved.resource_set.fetch_results ≡ some r
  waits = laws.inserted r s.resource_set.fetch_results

  abbrev encoded : Bytes
  encoded = host.write_fetch_result (field_after s r)

  abbrev encoded_id : ℕ
  encoded_id = (host.slots.insert encoded s.resource_set.bytes).1

  -- For slot maps that keep their laws: where the host's future of a fetch is ready, one poll of the
  -- function's future is ready with the same result, its error translated, and its body as a new
  -- resource of the host that holds the response's body; the future, the result and the message have
  -- left their tables; where the message decodes to the field, the new ids fit a `u64`, and the
  -- results and the vector lie inside the memory.
  pub poll_fetch-ready :
      host.read_fetch_result encoded ≡ some (field_after s r)
      → result_id < u64_mod
      → encoded_id < u64_mod
      → slot' + 16 ≤ length view
      → buffer (length encoded) + length encoded ≤ length view
      → (view' : Bytes) × (length view' ≡ length view)
        × (poll_fetch slot slot' buffer (at view s) id
            ≡ some (
              with_bytes
                  (with_bodies
                    (with_results
                      (with_futures (at view' s) rest)
                      (host.slots.remove result_id
                        (host.slots.insert r s.resource_set.fetch_results).0).0)
                    (bodies_after s r))
                  (host.slots.remove encoded_id
                    (host.slots.insert encoded s.resource_set.bytes).0).0,
              ready (seen_result s r),
            ))
  poll_fetch-ready decodes rid mid hs' hbuf = (
    received laws slot slot' buffer noticed resolved (rw length-noticed hv) result_id r waits,
    rw
        (length-received laws slot slot' buffer noticed resolved (rw length-noticed hv) result_id r
          waits)
        length-noticed,
    poll_fetch-calls slot slot' buffer (at view s) (at noticed resolved) id result_id _
        (fetch_poll-ready zeroed s (rw length-zeroed hv) id slot waker future future' r hw hf polled
          rest taken (rw length-zeroed hs))
        (tagged_at zeroed slot 0 result_id (rw length-zeroed hs) rid)
        (receive_result-found laws slot slot' buffer noticed resolved (rw length-noticed hv)
          result_id r waits decodes mid (rw length-noticed hs') (rw length-noticed hbuf)),
  )
