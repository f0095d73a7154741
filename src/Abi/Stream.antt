-- ===== src/Abi/Stream.antt =====
-- A body of the host, read by a function: `HttpBody::poll_next` of fx-sdk/src/api/http.rs over the
-- host functions, against one step of the host's own stream.
pub mod Next
use fx.Prelude.{
  ℕ, ◌+◌, ◌≤◌, ◌<◌, ◌≡◌, refl, Option, none, some, Result, ok, err, Poll, pending, ready, length,
  arith, ap, ◌∙◌,
}
use fx.Abi.Memory.{Bytes, u64_mod, take, drop, overwrite}
use fx.Abi.Memory.Bounds.{length-overwrite, overwritten}
use fx.Abi.Layout.{
  PollResult, poll_result_bytes, poll_result_of, poll_result-bytes, SerializeResult,
  serialize_result_bytes, serialize_result_of, serialize_result-bytes,
}
use fx.Abi.State.{Host, SlotLaws, FunctionInstanceState, HttpStreamError, Body, FrameField}
use fx.Abi.Handlers.{with_bytes}
use fx.Abi.Handlers.Http.{
  with_bodies, with_frames, poll_body, frame_field, send_bytes, fx_http_body_poll_frame,
  fx_http_frame_serialize,
}
use fx.Abi.Sdk.{zeros}
use fx.Abi.Sdk.Http.{Frame, frame_of, receive_bytes, receive_frame, poll_next}
use fx.Abi.Calls.{at, length-zeros, bytes_move-found}
use fx.Abi.Calls.Http.{
  tagged, located, poll_frame-ready, poll_frame-pending, poll_frame-missing, send_bytes-sent,
}

-- The answers that a function reads.
pub tagged_at :
    (view : Bytes) (slot tag id : ℕ)
    → slot + 16 ≤ length view
    → id < u64_mod
    → poll_result_of (take 16 (drop slot (overwrite slot (tagged tag id) view)))
      ≡ record { tag = tag; resource_id = id }
unfolding poll_result_bytes
tagged_at view slot tag id fits small =
    ap poll_result_of (overwritten slot (tagged tag id) view fits)
    ∙ poll_result-bytes (record { tag = tag; resource_id = id }) small

pub located_at :
    (view : Bytes) (slot id : ℕ) (bytes : Bytes)
    → slot + 16 ≤ length view
    → id < u64_mod
    → length bytes < u64_mod
    → serialize_result_of (take 16 (drop slot (overwrite slot (located id bytes) view)))
      ≡ record { bytes_resource_id = id; bytes_length = length bytes }
unfolding serialize_result_bytes
located_at view slot id bytes fits small short =
    ap serialize_result_of (overwritten slot (located id bytes) view fits)
    ∙ serialize_result-bytes (record { bytes_resource_id = id; bytes_length = length bytes }) small
        short

module _ {host : Host} (laws : SlotLaws host.slots) (slot slot' : ℕ) (buffer : ℕ → ℕ) (view : Bytes)
    (s : FunctionInstanceState host) (hv : length view < u64_mod) where
  -- The message behind an id reaches the function's vector.
  pub receive_bytes-found :
      (id : ℕ) (m : Bytes)
      → host.slots.get id s.resource_set.bytes ≡ some m
      → buffer (length m) + length m ≤ length view
      → receive_bytes slot slot' buffer
          (at view s)
          (record { bytes_resource_id = id; bytes_length = length m })
        ≡ some (
          (
            with_bytes
                (at
                  (overwrite
                    (buffer (length m))
                    m
                    (overwrite (buffer (length m)) (zeros (length m)) view))
                  s)
                (host.slots.remove id s.resource_set.bytes).0,
            0,
          ),
          m,
        )
  unfolding receive_bytes
  receive_bytes-found id m h fits = ground (
    arith,
    bytes_move-found (overwrite (buffer (length m)) (zeros (length m)) view) s
        (rw length-overwrite hv) laws id (buffer (length m)) m h (rw length-overwrite fits),
    overwritten (buffer (length m)) m (overwrite (buffer (length m)) (zeros (length m)) view)
        (rw length-overwrite fits),
  )

module _ {host : Host} (laws : SlotLaws host.slots) (slot slot' : ℕ) (buffer : ℕ → ℕ) where
  module _ (view : Bytes) (s : FunctionInstanceState host) (hv : length view < u64_mod)
      (frame_id : ℕ) (frame : Option (Result Bytes HttpStreamError))
      (h : host.slots.get frame_id s.resource_set.http_frames ≡ some frame) where
    abbrev message : Bytes
    message = host.write_frame (frame_field frame)

    abbrev message_id : ℕ
    message_id = (host.slots.insert message s.resource_set.bytes).1

    abbrev answered : Bytes
    answered = overwrite slot' (located message_id message) (overwrite slot' (zeros 16) view)

    abbrev received : Bytes
    received =
        overwrite (buffer (length message)) message
          (overwrite (buffer (length message)) (zeros (length message)) answered)

    length-answered : length answered ≡ length view
    length-answered = rw (length-overwrite, length-overwrite) refl

    pub length-received : length received ≡ length view
    length-received = rw (length-overwrite, length-overwrite) length-answered

    module _ (decodes : host.read_frame message ≡ some (frame_field frame))
        (small : message_id < u64_mod) (hs : slot' + 16 ≤ length view)
        (hb : buffer (length message) + length message ≤ length view) where
      serialized :
          fx_http_frame_serialize (at (overwrite slot' (zeros 16) view) s) frame_id slot'
          ≡ some (
            with_bytes
                (with_frames
                  (at answered s)
                  (host.slots.remove frame_id s.resource_set.http_frames).0)
                (host.slots.insert message s.resource_set.bytes).0,
            0,
          )
      unfolding fx_http_frame_serialize
      serialized = ground (
        arith,
        laws.removed s.resource_set.http_frames frame_id,
        h,
        send_bytes-sent (overwrite slot' (zeros 16) view)
            (with_frames (at view s)
              (host.slots.remove frame_id s.resource_set.http_frames).0).data_mut
            (rw length-overwrite hv) 0 2 3 slot' message (rw length-overwrite hs),
      )

      -- A frame becomes a message, and the message the frame that the function sees.
      pub receive_frame-found :
          receive_frame slot slot' buffer (at view s) frame_id
          ≡ some (
            with_bytes
                (with_frames
                  (at received s)
                  (host.slots.remove frame_id s.resource_set.http_frames).0)
                (host.slots.remove message_id (host.slots.insert message s.resource_set.bytes).0).0,
            frame_of (frame_field frame),
          )
      unfolding receive_frame
      receive_frame-found = ground (
        arith,
        serialized,
        located_at (overwrite slot' (zeros 16) view) slot' message_id message
            (rw length-overwrite hs) small (omega arith),
        receive_bytes-found laws slot slot' buffer answered
            (with_bytes
              (with_frames (at view s) (host.slots.remove frame_id s.resource_set.http_frames).0)
              (host.slots.insert message s.resource_set.bytes).0).data_mut
            (rw length-answered hv) message_id message (laws.inserted message s.resource_set.bytes)
            (rw length-answered hb),
        decodes,
      )
