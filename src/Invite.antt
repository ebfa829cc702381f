-- ===== src/Invite.antt =====
-- src/internal/invite: invitations to join, their file and the limit on attempts.
pub mod Store
pub mod Handler
pub mod Create
pub mod Attempts
pub mod Reopen
mod Tests
