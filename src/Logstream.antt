-- ===== src/Logstream.antt =====
-- src/internal/logstream: the ring buffer of log records and the hub that fans it out.
pub mod Ring
pub mod Hub
mod Tests
