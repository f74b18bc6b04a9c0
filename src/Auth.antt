-- ===== src/Auth.antt =====
-- app/services/admin_auth.py: passwords, and session tokens that are signed and kept by the client.
pub mod Base64
pub mod Runtime
pub mod Environment
pub mod Sessions
pub mod Split
pub mod Instants
pub mod Tokens
pub mod Accepted
pub mod Passwords
pub mod Ttl
mod Tests
