-- ===== src/Media.antt =====
-- Reading and serving media: internal/media.
pub mod Segments
pub mod Encoded
mod Tests
