-- ===== src/Api.antt =====
-- src/internal/api: what a request to the remote API passes before its handler runs.
pub mod Context
pub mod RateLimit
pub mod Dispatch
pub mod Tokens
mod Tests
