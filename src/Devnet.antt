-- ===== src/Devnet.antt =====
-- packages/payments/src/devnet-machine.ts and x402.ts: the paid resource of the Solana Devnet, over
-- the settlement store.
pub mod Inspect
pub mod Terms
pub mod Complete
pub mod Join
pub mod Settle
pub mod Accept
pub mod Stage
