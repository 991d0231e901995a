-- ===== src/Tests.antt =====
-- Runs of the handlers on small mints, and the theorems at concrete inputs.
pub mod Values
pub mod Runs
mod Handlers
mod Bits
mod Units
mod Buckets
mod Quotes
mod Steps
mod Restored
mod Outputs
mod Codec
mod Wallet
