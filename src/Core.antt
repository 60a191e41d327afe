-- ===== src/Core.antt =====
-- packages/core: records of operations, the stores that keep them, and the coordinator that makes
-- an operation run once.
pub mod Types
pub mod Store
pub mod Coordinator
