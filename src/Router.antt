-- ===== src/Router.antt =====
-- services/mcp-router: the gate in front of the tools of integrations.
pub mod Limits
mod Tests
