-- ===== src/Outbox.antt =====
-- The outbox worker: apps/api/src/jobs/outbox.ts and the URL check of apps/api/src/lib/webhook-http.ts.
pub mod Delivery
pub mod Batch
pub mod Expiry
pub mod Rules
pub mod Lifecycle
pub mod Terminal
pub mod Requests
pub mod Abort
pub mod Transitions
mod Tests
