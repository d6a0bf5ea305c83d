-- ===== src/Flow.antt =====
-- The connect flow of apps/api/src/routes/oauth.ts: sessions, authorization, the provider's callback,
-- API keys and disconnecting, with the lookups they share.
pub mod Tables
pub mod Settings
pub mod Resolution
pub mod Types
pub mod Request
pub mod Sessions
pub mod ApiKey
pub mod Authorize
pub mod Client
pub mod Callback
pub mod Listing
pub mod Disconnect
pub mod Rules
pub mod SingleUse
pub mod Binding
pub mod Redirect
pub mod Issued
pub mod Told
pub mod Samples
pub mod Own
mod Tests
pub mod Connectable
pub mod Revoked
pub mod Lifetimes
