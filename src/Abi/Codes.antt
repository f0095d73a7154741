-- ===== src/Abi/Codes.antt =====
-- The codes that the host functions return, fx-types/src/abi.rs: each enumeration with its number
-- (`as u64`) and the reading of a number that `TryFromPrimitive` derives.
pub mod Fetches
pub mod Resources
pub mod Services
use fx.Prelude.{ℕ, ◌≡◌, Option, some}

-- What the two sides agree on: a code that is sent is the code that is read.
pub record ResultCode (A : Type 0) : Type 0 where
  pub as_u64 : A → ℕ
  pub try_from : ℕ → Option A
  pub sent : (a : A) → try_from (as_u64 a) ≡ some a

abbrev pub as_u64 : {A : Type 0} ⦃c : ResultCode A⦄ → A → ℕ
as_u64 ⦃c⦄ = c.as_u64

abbrev pub try_from : {A : Type 0} ⦃c : ResultCode A⦄ → ℕ → Option A
try_from ⦃c⦄ = c.try_from
