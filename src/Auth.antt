-- ===== src/Auth.antt =====
-- Identities: internal/app/auth/auth.go.
pub mod Tables
pub mod Principals
pub mod Sessions
pub mod Logins
pub mod History
pub mod Passwords
pub mod Registration
mod Examples
