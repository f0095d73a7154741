-- ===== src/Abi/Transfer.antt =====
-- A resource of bytes, moved from the host into the function: `BytesResource::into_vec` over
-- `fx_bytes_len` and `fx_bytes_move`.
use fx.Prelude.{ℕ, ◌+◌, ◌≤◌, ◌<◌, ◌≡◌, refl, some, ok, length, arith, ap, ◌∙◌}
use fx.Abi.Memory.{Bytes, u64_mod, take, drop, overwrite}
use fx.Abi.Memory.Bounds.{length-overwrite, overwritten}
use fx.Abi.Layout.{word_bytes, word_of, word-word_bytes}
use fx.Abi.State.{Host, SlotLaws, FunctionInstanceState}
use fx.Abi.Handlers.{with_bytes}
use fx.Abi.Sdk.{zeros, into_vec}
use fx.Abi.Calls.{at, bytes_len-found, bytes_move-found}

-- The number that a function reads where the host has written one.
pub word_at :
    (view : Bytes) (slot n : ℕ)
    → slot + 8 ≤ length view
    → n < u64_mod
    → word_of (take 8 (drop slot (overwrite slot (word_bytes n) view))) ≡ n
unfolding word_bytes
word_at view slot n fits small =
    ap word_of (overwritten slot (word_bytes n) view fits) ∙ word-word_bytes n small

module _ {host : Host} (laws : SlotLaws host.slots) (slot : ℕ) (buffer : ℕ → ℕ) (view : Bytes)
    (s : FunctionInstanceState host) (hv : length view < u64_mod) (id : ℕ) (v : Bytes)
    (h : host.slots.get id s.resource_set.bytes ≡ some v) (hs : slot + 8 ≤ length view)
    (hb : buffer (length v) + length v ≤ length view) where
  -- The memory after the length is written, and after the vector is made.
  abbrev measured : Bytes
  measured = overwrite slot (word_bytes (length v)) (overwrite slot (zeros 8) view)

  abbrev prepared : Bytes
  prepared = overwrite (buffer (length v)) (zeros (length v)) measured

  length-measured : length measured ≡ length view
  length-measured = rw (length-overwrite, length-overwrite) refl

  length-prepared : length prepared ≡ length view
  length-prepared = rw length-overwrite length-measured

  read_length : word_of (take 8 (drop slot measured)) ≡ length v
  read_length =
      word_at (overwrite slot (zeros 8) view) slot (length v)
        (omega (arith, length-overwrite slot (zeros 8) view)) (omega arith)

  read_bytes :
      take (length v) (drop (buffer (length v)) (overwrite (buffer (length v)) v prepared)) ≡ v
  read_bytes = overwritten (buffer (length v)) v prepared (omega (arith, length-prepared))

  moved :
      into_vec slot buffer (at view s) id
      ≡ some (
        with_bytes
            (at (overwrite (buffer (length v)) v prepared) s)
            (host.slots.remove id s.resource_set.bytes).0,
        ok v,
      )
  unfolding into_vec
  moved = ground (
    arith,
    bytes_len-found (overwrite slot (zeros 8) view) s
        (omega (arith, length-overwrite slot (zeros 8) view)) id slot v h
        (omega (arith, length-overwrite slot (zeros 8) view)),
    read_length,
    bytes_move-found prepared s (omega (arith, length-prepared)) laws id (buffer (length v)) v h
        (omega (arith, length-prepared)),
    read_bytes,
  )

  -- For slot maps that keep their laws, a function that reads a resource which is in the host's table
  -- gets exactly its bytes, and the resource has left the table; where the result's slot and the new
  -- vector lie inside the memory. The memory keeps its length, and nothing else of the instance
  -- changes.
  pub into_vec-found :
      (view' : Bytes) × (into_vec slot buffer (at view s) id
        ≡ some (with_bytes (at view' s) (host.slots.remove id s.resource_set.bytes).0, ok v))
      × (length view' ≡ length view)
  into_vec-found =
      (overwrite (buffer (length v)) v prepared, moved, rw length-overwrite length-prepared)
