-- ===== src/Handler.antt =====
-- internal/handler: the HTTP handlers over the cache, the prices, the database and the settler.
pub mod Server
pub mod Initial
pub mod Payment
pub mod Relay
pub mod Staging
pub mod Booked
pub mod Delivery
pub mod Overlap
pub mod Admin
pub mod AdminLaws
pub mod History
pub mod RoundTrip
pub mod Settling
pub mod Sold
pub mod Interleaving
pub mod Keeping
pub mod Concurrent
pub mod Atomic
pub mod Entered
pub mod Info
pub mod Balances
pub mod Unconfirmed
