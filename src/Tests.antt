-- ===== src/Tests.antt =====
-- The theorems at concrete inputs, and runs of the model on them.
pub mod Fixtures
mod Prices
mod Staged
mod Ledger
mod Catalog
pub mod Evm
pub mod Solana
pub mod Gateway
pub mod Relay
mod Setup
pub mod Keys
mod Paying
mod Sent
mod Sold
mod Web
mod Balances
mod Unconfirmed
