-- ===== src/Abi/Calls.antt =====
-- What each host function does to an instance whose memory is a view that the answer fits.
pub mod Http
pub mod Services
use fx.Prelude.{
  ℕ, zero, suc, ◌+◌, ◌≤◌, ◌<◌, ◌≡◌, refl, some, none, ok, err, List, [], ◌∷◌, length, arith,
  Bool-cases, leb, true, ap,
}
use fx.Abi.Memory.{
  Bytes, u64_mod, linear, from_caller, take, drop, overwrite, copy_from_slice, write_struct,
  FunctionMemoryAccessError,
}
use fx.Abi.Memory.Bounds.{write_bounds, length-overwrite}
use fx.Abi.Layout.{word_bytes}
use fx.Abi.State.{Host, SlotLaws, Caller, FunctionInstanceState}
use fx.Abi.Handlers.{respond, written, with_bytes, fx_bytes_len_handler, fx_bytes_move_handler}
use fx.Abi.Sdk.{zeros}

-- The instance with this memory and this state.
abbrev pub at : {host : Host} → Bytes → FunctionInstanceState host → Caller host
at view s = record { memory = linear view; data_mut = s }

pub length-zeros : (n : ℕ) → length (zeros n) ≡ n
length-zeros zero = refl
length-zeros (suc n) = omega (arith, length-zeros n)

pub copy-fits :
    (view : Bytes) (ptr : ℕ) (bytes : Bytes)
    → length view < u64_mod
    → ptr + length bytes ≤ length view
    → copy_from_slice view ptr (length bytes) bytes ≡ some (ok (overwrite ptr bytes view))
copy-fits view ptr bytes hv fits =
    ground (arith, write_bounds view ptr bytes hv (omega arith) (omega arith))

module _ {host : Host} (view : Bytes) (s : FunctionInstanceState host)
    (hv : length view < u64_mod) where
  pub respond-write_struct :
      (success no_memory beyond addr : ℕ) (bytes : Bytes)
      → addr + length bytes ≤ length view
      → respond (at view s) success no_memory beyond (λ v. write_struct v addr bytes)
        ≡ some (at (overwrite addr bytes view) s, success)
  unfolding respond from_caller write_struct
  respond-write_struct success no_memory beyond addr bytes fits =
      rw (copy-fits view addr bytes hv fits) refl

  pub bytes_len-found :
      (id ptr : ℕ) (v : Bytes)
      → host.slots.get id s.resource_set.bytes ≡ some v
      → ptr + 8 ≤ length view
      → fx_bytes_len_handler (at view s) id ptr
        ≡ some (at (overwrite ptr (word_bytes (length v)) view) s, 0)
  unfolding fx_bytes_len_handler word_bytes
  bytes_len-found id ptr v h fits =
      ground (arith, h, respond-write_struct 0 1 3 ptr (word_bytes (length v)) fits)

  pub bytes_move-found :
      SlotLaws host.slots
      → (id ptr : ℕ) (v : Bytes) → host.slots.get id s.resource_set.bytes ≡ some v
      → ptr + length v ≤ length view
      → fx_bytes_move_handler (at view s) id ptr
        ≡ some (
          with_bytes (at (overwrite ptr v view) s) (host.slots.remove id s.resource_set.bytes).0,
          0,
        )
  unfolding fx_bytes_move_handler respond from_caller
  bytes_move-found laws id ptr v h fits =
      ground (arith, laws.removed s.resource_set.bytes id, h, copy-fits view ptr v hv fits)
