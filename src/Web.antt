-- ===== src/Web.antt =====
-- The web interface: internal/web.
pub mod Cursor
mod Tests
