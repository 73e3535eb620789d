-- ===== src/Auth.antt =====
-- The package auth: tokens, passwords and sessions.
pub mod Libraries
pub mod Tokens
pub mod Accounts
pub mod Service
mod Tests
