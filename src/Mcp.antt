-- ===== src/Mcp.antt =====
-- internal/mcp: the hub of upstream tool servers and the proxy before it. The policies of the proxy
-- are Access.Tools.
pub mod Hub
pub mod Cache
pub mod Proxy
pub mod Listing
pub mod Runs
pub mod Effects
pub mod Invariant
pub mod Visible
pub mod Keys
mod Tests
