-- ===== src/Payments.antt =====
-- packages/payments/src: the types of the rail, its two adapters and their registry.
pub mod Types
pub mod Adapters
pub mod Laws
