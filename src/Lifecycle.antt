-- ===== src/Lifecycle.antt =====
-- src/internal/lifecycle/health: the probes of the host and the reconnection to it.
pub mod Prober
pub mod Reconnect
mod Tests
