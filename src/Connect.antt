-- ===== src/Connect.antt =====
-- Connect sessions: apps/api/src/lib/connect-session.ts.
pub mod Session
pub mod Snapshot
mod Tests
