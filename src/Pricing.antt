-- ===== src/Pricing.antt =====
-- internal/pricing/pricing.go: the price table, the cost of a response, and its display.
pub mod Price
pub mod Table
pub mod Cost
pub mod Longest
pub mod Order
pub mod Bounds
pub mod Display
pub mod Manager
pub mod Parse
