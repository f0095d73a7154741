-- ===== src/Abi/Stream/Next.antt =====
-- One `poll_next` of a function against one step of the host's stream.
use fx.Prelude.{
  ℕ, ◌+◌, ◌≤◌, ◌<◌, ◌≡◌, refl, Option, none, some, Result, ok, err, pending, ready, length, arith,
}
use fx.Abi.Memory.{Bytes, u64_mod, overwrite}
use fx.Abi.Memory.Bounds.{length-overwrite}
use fx.Abi.State.{
  Host, SlotLaws, FunctionInstanceState, HttpStreamError, Body, fetch_response_stream_error,
  request_body_stream_error, function_request_body_stream_error,
}
use fx.Abi.Handlers.{with_bytes}
use fx.Abi.Handlers.Http.{with_bodies, with_frames, poll_body, frame_field}
use fx.Abi.Sdk.{zeros}
use fx.Abi.Sdk.Http.{Frame, frame_of, failed_to_read, poll_next}
use fx.Abi.Calls.{at}
use fx.Abi.Calls.Http.{tagged, poll_frame-ready, poll_frame-pending}
use fx.Abi.Stream.{tagged_at, received, length-received, receive_frame-found}

-- What a function is to see of a step of the host's stream: the same frame, and no error but one.
abbrev pub seen : Option (Result Bytes HttpStreamError) → Frame
seen none = none
seen (some (ok bytes)) = some (ok bytes)
seen (some (err _)) = some (err failed_to_read)

frame_of-field : (f : Option (Result Bytes HttpStreamError)) → frame_of (frame_field f) ≡ seen f
unfolding frame_of frame_field
frame_of-field none = refl
frame_of-field (some (ok bytes)) = refl
frame_of-field (some (err fetch_response_stream_error)) = refl
frame_of-field (some (err request_body_stream_error)) = refl
frame_of-field (some (err function_request_body_stream_error)) = refl

module _ {host : Host} (laws : SlotLaws host.slots) (slot slot' : ℕ) (buffer : ℕ → ℕ) (view : Bytes)
    (s : FunctionInstanceState host) (hv : length view < u64_mod) (hs : slot + 16 ≤ length view)
    (id waker : ℕ) (hw : s.waker ≡ some waker) where
  abbrev zeroed : Bytes
  zeroed = overwrite slot (zeros 16) view

  length-zeroed : length zeroed ≡ length view
  length-zeroed = length-overwrite slot (zeros 16) view

  module _ (body body' : Body host)
      (hb : host.slots.get id s.resource_set.http_bodies ≡ some body) where
    module _ (frame : Option (Result Bytes HttpStreamError))
        (polled : poll_body host waker body ≡ some (body', ready frame)) where
      abbrev frame_id : ℕ
      frame_id = (host.slots.insert frame s.resource_set.http_frames).1

      -- The memory and the state when the frame is ready.
      abbrev noticed : Bytes
      noticed = overwrite slot (tagged 0 frame_id) zeroed

      abbrev stepped : FunctionInstanceState host
      stepped =
          (with_frames
            (with_bodies (at view s) (host.slots.set id body' s.resource_set.http_bodies))
            (host.slots.insert frame s.resource_set.http_frames).0).data_mut

      length-noticed : length noticed ≡ length view
      length-noticed = rw length-overwrite length-zeroed

      there : host.slots.get frame_id stepped.resource_set.http_frames ≡ some frame
      there = laws.inserted frame s.resource_set.http_frames

      abbrev encoded : Bytes
      encoded = host.write_frame (frame_field frame)

      abbrev encoded_id : ℕ
      encoded_id = (host.slots.insert encoded s.resource_set.bytes).1

      -- For slot maps that keep their laws: where the host's stream of a body gives a frame, one
      -- `poll_next` of the function gives that frame, and any error as `FailedToRead`; the table
      -- keeps the stream as the step left it, and the frame and its message have left theirs; where
      -- the message decodes to the frame, the new ids fit a `u64`, and the results and the vector
      -- lie inside the memory.
      pub poll_next-ready :
          host.read_frame encoded ≡ some (frame_field frame)
          → frame_id < u64_mod
          → encoded_id < u64_mod
          → slot' + 16 ≤ length view
          → buffer (length encoded) + length encoded ≤ length view
          → (view' : Bytes) × (length view' ≡ length view)
            × (poll_next slot slot' buffer (at view s) id
                ≡ some (
                  with_bytes
                      (with_frames
                        (with_bodies
                          (at view' s)
                          (host.slots.set id body' s.resource_set.http_bodies))
                        (host.slots.remove frame_id
                          (host.slots.insert frame s.resource_set.http_frames).0).0)
                      (host.slots.remove encoded_id
                        (host.slots.insert encoded s.resource_set.bytes).0).0,
                  ready (seen frame),
                ))
      unfolding poll_next
      poll_next-ready decodes fid mid hs' hbuf = (
        received laws slot slot' buffer noticed stepped (rw length-noticed hv) frame_id frame there,
        rw
            (length-received laws slot slot' buffer noticed stepped (rw length-noticed hv) frame_id
              frame there)
            length-noticed,
        ground (
          arith,
          poll_frame-ready zeroed s (rw length-zeroed hv) id slot waker body body' frame hw hb
              polled (rw length-zeroed hs),
          tagged_at zeroed slot 0 frame_id (rw length-zeroed hs) fid,
          receive_frame-found laws slot slot' buffer noticed stepped (rw length-noticed hv) frame_id
              frame there decodes mid (rw length-noticed hs') (rw length-noticed hbuf),
          frame_of-field frame,
        ),
      )

    -- Where the stream is pending, so is `poll_next`, and only the stream has changed.
    pub poll_next-pending :
        poll_body host waker body ≡ some (body', pending)
        → poll_next slot slot' buffer (at view s) id
          ≡ some (
            with_bodies
                (at (overwrite slot (tagged 1 0) zeroed) s)
                (host.slots.set id body' s.resource_set.http_bodies),
            pending,
          )
    unfolding poll_next
    poll_next-pending polled = ground (
      arith,
      poll_frame-pending zeroed s (rw length-zeroed hv) id slot waker body body' hw hb polled
          (rw length-zeroed hs),
      tagged_at zeroed slot 1 0 (rw length-zeroed hs) (omega arith),
    )
