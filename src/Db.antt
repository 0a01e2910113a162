-- ===== src/Db.antt =====
-- The database port: internal/db.
pub mod Path
pub mod Migrate
mod Tests
