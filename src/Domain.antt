-- ===== src/Domain.antt =====
-- packages/domain: envelopes and mandates, the order's state machine, canonical JSON, the policy.
pub mod Order
pub mod Types
pub mod Canonical
pub mod Policy
pub mod Material
