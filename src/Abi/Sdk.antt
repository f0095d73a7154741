-- ===== src/Abi/Sdk.antt =====
-- The part of fx-sdk that calls the host functions on resources: fx-sdk/src/sys/resource.rs and the
-- streams and futures of fx-sdk/src/api/http.rs. The function's memory is the caller's; where the
-- code makes room on its stack or its heap, an argument is the address. A result `none` is a panic
-- of the host or of the function.
pub mod Http
pub mod Services
use fx.Prelude.{
  ℕ, zero, suc, Option, none, some, Result, ok, err, Poll, pending, ready, List, [], ◌∷◌, ◌==◌,
  nat_eq, if◌then◌else◌,
}
use fx.Abi.Memory.{Bytes, Export, absent, other_kind, linear, take, drop, overwrite}
use fx.Abi.Layout.{word_of, from_le_bytes}
use fx.Abi.Codes.{try_from}
use fx.Abi.Codes.Resources.{
  BytesLenResultCode, UnitFuturePollResultCode, bytes_len_code, unit_future_poll_code,
}
use fx.Abi.State.{Host, Caller}
use fx.Abi.Handlers.{fx_bytes_len_handler, fx_bytes_move_handler, fx_unit_future_poll}

infixl 5 ◌>>=◌
abbrev pub ◌>>=◌ : {A B : Type 0} → Option A → (A → Option B) → Option B
none >>= f = none
some a >>= f = f a

abbrev pub zeros : ℕ → Bytes
zeros zero = []
zeros (suc n) = 0 ∷ zeros n

abbrev pub peek_in : Export → ℕ → ℕ → Bytes
peek_in (linear view) addr len = take len (drop addr view)
peek_in absent addr len = []
peek_in other_kind addr len = []

module _ {host : Host} where
  -- The function writes and reads its own memory.
  abbrev pub poke_in : Caller host → ℕ → Bytes → Export → Caller host
  poke_in c addr bytes (linear view) = record c { memory = linear (overwrite addr bytes view) }
  poke_in c addr bytes absent = c
  poke_in c addr bytes other_kind = c

  abbrev pub poke : Caller host → ℕ → Bytes → Caller host
  poke c addr bytes = poke_in c addr bytes c.memory

  abbrev pub peek : Caller host → ℕ → ℕ → Bytes
  peek c addr len = peek_in c.memory addr len

pub data BytesReadError : Type 0 where
  internal_sdk_error : BytesReadError

-- The codes that let `into_vec` go on.
len_answered : Option BytesLenResultCode → Result (Unit {0}) BytesReadError
len_answered (some BytesLenResultCode.ok) = ok tt
len_answered (some BytesLenResultCode.argument_out_of_memory_bounds) = err internal_sdk_error
len_answered (some BytesLenResultCode.failed_to_access_memory) = err internal_sdk_error
len_answered (some BytesLenResultCode.resource_not_found) = err internal_sdk_error
len_answered none = err internal_sdk_error

pub data PollError : Type 0 where
  internal_sdk_error runtime_internal_error : PollError

unit_poll_answered : Option UnitFuturePollResultCode → Result (Unit {0}) PollError
unit_poll_answered (some UnitFuturePollResultCode.ok) = ok tt
unit_poll_answered (some UnitFuturePollResultCode.internal_runtime_assertion_error) =
    err PollError.runtime_internal_error
unit_poll_answered (some UnitFuturePollResultCode.failed_to_access_memory) =
    err PollError.internal_sdk_error
unit_poll_answered (some UnitFuturePollResultCode.result_addr_out_of_memory_bounds) =
    err PollError.internal_sdk_error
unit_poll_answered (some UnitFuturePollResultCode.resource_not_found) =
    err PollError.internal_sdk_error
unit_poll_answered none = err PollError.internal_sdk_error

unit_tag : ℕ → Poll (Result (Unit {0}) PollError)
unit_tag tag =
    if tag == 1
    then pending
    else if tag == 0
    then ready (ok tt)
    else ready (err PollError.internal_sdk_error)

module _ {host : Host} (slot : ℕ) where
  -- `buffer` gives the address of a new vector by its length. The answer of `fx_bytes_move` is not
  -- looked at.
  unfoldable pub into_vec :
      (buffer : ℕ → ℕ)
      → Caller host
      → (resource_id : ℕ) → Option (Caller host × Result Bytes BytesReadError)
  unfolding len_answered
  into_vec buffer c resource_id = do
    (c', code) ← fx_bytes_len_handler (poke c slot (zeros 8)) resource_id slot
    elim (len_answered (try_from code)) [
      | err e ↦ some (c', err e)
      | ok _ ↦
          (let length = word_of (peek c' slot 8) in
            fx_bytes_move_handler (poke c' (buffer length) (zeros length)) resource_id
              (buffer length)
            >>= λ moved. some (moved.0, ok (peek moved.0 (buffer length) length)))
    ]

  unfoldable pub poll_unit_future :
      Caller host → (resource_id : ℕ) → Option (Caller host × Poll (Result (Unit {0}) PollError))
  unfolding unit_poll_answered unit_tag
  poll_unit_future c resource_id = do
    (c', code) ← fx_unit_future_poll (poke c slot (zeros 1)) resource_id slot
    elim (unit_poll_answered (try_from code)) [
      | err e ↦ some (c', ready (err e))
      | ok _ ↦ some (c', unit_tag (from_le_bytes (peek c' slot 1)))
    ]
