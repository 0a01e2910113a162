-- ===== src/Auth.antt =====
-- Credentials and what is issued from them: internal/auth.
pub mod Throttle
mod Tests
