-- ===== src/Abi/Layout.antt =====
-- The structures that cross the interface, fx-types/src/abi.rs: `#[repr(C)]`, with every `u64` in
-- little-endian order, as on wasm and on the hosts that the runtime is built for. A `_pad` field is
-- seven zero bytes, which the reader skips.
use fx.Prelude.{ℕ, zero, suc, ◌+◌, ◌*◌, ◌/◌, ◌%◌, ◌^◌, ◌<◌, ◌≡◌, [], ◌∷◌, ◌++◌, arith}
use fx.Abi.Memory.{Bytes, u64_mod, take, drop}

abbrev pub le_bytes : ℕ → ℕ → Bytes
le_bytes zero n = []
le_bytes (suc k) n = n % 256 ∷ le_bytes k (n / 256)

abbrev pub from_le_bytes : Bytes → ℕ
from_le_bytes [] = 0
from_le_bytes (b ∷ bs) = b + 256 * from_le_bytes bs

from-le_bytes : (k n : ℕ) → n < 256 ^ k → from_le_bytes (le_bytes k n) ≡ n
from-le_bytes zero n h = omega arith
from-le_bytes (suc k) n h = omega (arith, from-le_bytes k (n / 256) (omega arith))

-- `BytesLenHandlerResult`, `FetchRequestHeaderSerializeResult`, `EnvLenResult` and
-- `MetricsCounterRegisterResult` are one `u64` each.
unfoldable pub word_bytes : ℕ → Bytes
word_bytes n = le_bytes 8 n

unfoldable pub word_of : Bytes → ℕ
word_of bs = from_le_bytes (take 8 bs)

-- `FetchResultFuturePollResult` and `HttpBodyPollFrameResult`
pub record PollResult : Type 0 where
  pub tag : ℕ
  pub resource_id : ℕ

unfoldable pub poll_result_bytes : PollResult → Bytes
poll_result_bytes r = r.tag ∷ (0 ∷ 0 ∷ 0 ∷ 0 ∷ 0 ∷ 0 ∷ 0 ∷ []) ++ le_bytes 8 r.resource_id

unfoldable pub poll_result_of : Bytes → PollResult
poll_result_of bs = record {
  tag = from_le_bytes (take 1 bs);
  resource_id = from_le_bytes (take 8 (drop 8 bs));
}

-- `FetchResultSerializeResult` and `HttpFrameSerializeResult`
pub record SerializeResult : Type 0 where
  pub bytes_resource_id : ℕ
  pub bytes_length : ℕ

unfoldable pub serialize_result_bytes : SerializeResult → Bytes
serialize_result_bytes r = le_bytes 8 r.bytes_resource_id ++ le_bytes 8 r.bytes_length

unfoldable pub serialize_result_of : Bytes → SerializeResult
serialize_result_of bs = record {
  bytes_resource_id = from_le_bytes (take 8 bs);
  bytes_length = from_le_bytes (take 8 (drop 8 bs));
}

-- What is written of a structure is read back, where its numbers fit their fields.
pub word-word_bytes : (n : ℕ) → n < u64_mod → word_of (word_bytes n) ≡ n
unfolding word_of word_bytes
word-word_bytes n h = from-le_bytes 8 n h

pub poll_result-bytes :
    (r : PollResult) → r.resource_id < u64_mod → poll_result_of (poll_result_bytes r) ≡ r
unfolding poll_result_of poll_result_bytes
poll_result-bytes r h = ground (arith, from-le_bytes 8 r.resource_id h)

pub serialize_result-bytes :
    (r : SerializeResult)
    → r.bytes_resource_id < u64_mod
    → r.bytes_length < u64_mod
    → serialize_result_of (serialize_result_bytes r) ≡ r
unfolding serialize_result_of serialize_result_bytes
serialize_result-bytes r h k =
    ground (arith, from-le_bytes 8 r.bytes_resource_id h, from-le_bytes 8 r.bytes_length k)
