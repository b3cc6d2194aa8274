-- ===== src/Auth.antt =====
-- internal/auth/auth.go: identities.
pub mod Claims
pub mod Tokens
pub mod Sessions
