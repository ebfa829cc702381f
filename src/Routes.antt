-- ===== src/Routes.antt =====
-- src/internal/routes: the routes to local ports.
pub mod Expose
mod Tests
