-- ===== src/Settlement.antt =====
-- packages/payments/src/x402-settlement-store.ts: the attempts to settle an x402 payment, in the
-- in-memory store. The Postgres store is SQL for the same interface.
pub mod Types
pub mod Store
pub mod Moves
pub mod Release
pub mod Ops
pub mod Laws
pub mod Counting
pub mod Runs
pub mod Active
pub mod Final
pub mod Claims
pub mod Searches
pub mod Prior
pub mod Resolve
pub mod Replay
pub mod Released
pub mod Operator
