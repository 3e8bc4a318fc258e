-- ===== src/Accounts.antt =====
-- auth/auth.service.ts and auth/token-denylist.service.ts: accounts and their sessions.
pub mod Phone
pub mod Sessions
pub mod Codes
pub mod Signup
pub mod Revocation
mod Tests
