-- ===== src/Examples.antt =====
-- One order of the demonstration shop, and the theorems at it.
pub mod Data
pub mod Payments
pub mod Catalog
pub mod Life
pub mod Operations
pub mod Settlement
pub mod Devnet
pub mod Machine
pub mod Sessions
