-- ===== src/Proxy.antt =====
-- The reverse proxy and the DNS records of src/internal/proxy.
pub mod Caddy
pub mod Dns
pub mod Sample
mod Tests
