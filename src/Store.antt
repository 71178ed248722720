-- ===== src/Store.antt =====
-- internal/store: the SQLite database. A statement is modelled by what SQL says it does to the
-- tables; `fault` says whether the driver fails at it for a reason of its own.
pub mod Db
pub mod Payments
pub mod Prices
pub mod Open
pub mod Migrate
pub mod Migrated
pub mod Records
pub mod Apart
pub mod Inserts
pub mod Catalog
