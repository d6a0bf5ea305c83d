-- ===== src/OAuth.antt =====
-- Talking OAuth to providers: packages/shared/src/oauth-endpoints.ts, platform-oauth.ts, and the
-- trust in endpoints of mcp-discovery.ts.
pub mod Registry
pub mod Trust
pub mod Endpoints
pub mod TokenRequest
pub mod Applications
pub mod Samples
pub mod Pinned
pub mod Scopes
mod Tests
