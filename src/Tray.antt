-- ===== src/Tray.antt =====
-- src/internal/traylogic: what the icon in the tray shows.
pub mod State
mod Tests
