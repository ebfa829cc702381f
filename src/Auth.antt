-- ===== src/Auth.antt =====
-- src/internal/auth: scopes, API tokens and their store, the cache of validated tokens, JWTs.
pub mod Scope
pub mod Token
pub mod Store
pub mod Cache
pub mod Jwt
mod Tests
