-- ===== src/Thread.antt =====
-- The Sandbox agent thread: apps/dashboard/src/components/sandbox/agent-thread.ts.
pub mod Types
pub mod Runs
pub mod Reducer
pub mod Entries
pub mod Stream
pub mod Approvals
pub mod History
mod Tests
