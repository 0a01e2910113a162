-- ===== src/Dav.antt =====
-- The WebDAV adapter: internal/dav.
pub mod Locks
mod Tests
