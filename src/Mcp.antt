-- ===== src/Mcp.antt =====
-- The minimum MCP connection contract (src/mcp/connection.rs).
pub mod Connection
