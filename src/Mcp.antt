-- ===== src/Mcp.antt =====
-- internal/mcp: the protocol layer between clients and backends.
pub mod Lease
pub mod Circuit
pub mod Disconnect
pub mod Gateway
pub mod SharedTools
pub mod Hardening
pub mod Errors
pub mod Calls
pub mod Envelope
