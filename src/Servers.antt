-- ===== src/Servers.antt =====
-- The MCP servers that tenants register, with their tools: packages/database/src/mcp-servers.ts.
pub mod Tables
pub mod Writes
pub mod Reads
pub mod Review
pub mod Discovered
mod Tests
