-- ===== src/Daemon.antt =====
-- The daemon's own HTTP interface: src/internal/daemon.
pub mod Ports
mod Tests
