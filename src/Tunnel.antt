-- ===== src/Tunnel.antt =====
-- src/internal/tunnel: the peers of a server.
pub mod Address
pub mod LocalProxy
pub mod Shell
pub mod Peers
pub mod ServerConfig
pub mod Fetch
pub mod Manager
pub mod Sample
mod Tests
