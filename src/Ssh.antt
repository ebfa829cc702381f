-- ===== src/Ssh.antt =====
-- src/internal/ssh: the pool of sessions of one host.
pub mod Pool
mod Tests
