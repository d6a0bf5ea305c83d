-- ===== src/Refresh.antt =====
-- Refreshing a connection's token: packages/database/src/jobs/token-refresh.ts.
pub mod Types
pub mod Lease
pub mod Client
pub mod Job
pub mod Rules
pub mod Released
pub mod Fenced
pub mod Changes
pub mod Credentials
mod Tests
