-- ===== src/Mcp.antt =====
-- internal/mcpserver: what a token of the MCP endpoint may do.
pub mod Scopes
