-- ===== src/Discovery.antt =====
-- Discovering a tenant's MCP server: apps/api/src/lib/mcp-discovery-run.ts.
pub mod Address
pub mod Networks
pub mod Metadata
pub mod Run
pub mod Trusted
pub mod Accepted
pub mod Connects
pub mod Tests
