-- ===== src/User.antt =====
-- user-service/src: the limits on signing in and signing up.
pub mod Limiter
pub mod Accounts
pub mod Sessions
mod Examples
