-- ===== src/Identity.antt =====
-- backend/internal/identity: users, credentials and refresh sessions.
pub mod Errors
pub mod Credential
pub mod User
pub mod Session
pub mod Service
pub mod RateLimit
pub mod Network
