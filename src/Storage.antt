-- ===== src/Storage.antt =====
-- The blob storage port: internal/storage.
pub mod Key
pub mod Range
mod Tests
