-- ===== src/Mcp.antt =====
-- apps/woof-mcp/src/lib.rs: the bridge from stdio to the daemon.
pub mod Lines
pub mod Frame
pub mod Tools
mod Examples
