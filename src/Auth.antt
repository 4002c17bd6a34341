-- ===== src/Auth.antt =====
-- Accounts and sessions: backend/src/modules/auth.
pub mod Phone
pub mod State
pub mod Sessions
pub mod Rows
pub mod Otp
pub mod Users
pub mod Login
pub mod Register
pub mod Reset
