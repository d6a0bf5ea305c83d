-- ===== src/Tools.antt =====
-- Tools of providers and of tenants' MCP servers: packages/shared/src/tool-safety.ts,
-- provider-tool-merge.ts and the tools of mcp-discovery.ts.
pub mod Safety
pub mod Discovered
pub mod Merge
pub mod Policy
pub mod Normal
mod Tests
