-- ===== src/Sessions.antt =====
-- apps/web/lib/session-token.ts, packages/audit/src/ledger.ts, and in services.ts the creation, export
-- and import of sessions.
pub mod Audit
pub mod Token
pub mod Cache
