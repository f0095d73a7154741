-- ===== src/Abi.antt =====
-- The interface between a function and its host, fx-types/src/abi.rs,
-- fx-runtime/src/function/abi and the part of fx-sdk that calls it.
pub mod Memory
pub mod Layout
pub mod Codes
pub mod State
pub mod Handlers
pub mod Sdk
pub mod Calls
pub mod Transfer
pub mod Stream
pub mod Fetched
pub mod Labels
pub mod Fetch
pub mod Total
mod Tests
