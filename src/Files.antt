-- ===== src/Files.antt =====
-- The file layer: internal/files, over the blob store of internal/storage/storage.go and the tables
-- that internal/db/sqlite keeps. A file is a row and a blob, and no other part writes that pair.
pub mod World
pub mod Action
pub mod Key
pub mod Repo
pub mod Store
pub mod Rules
pub mod Count
pub mod Held
pub mod Sound
pub mod Service
pub mod Upload
pub mod History
pub mod Outcomes
mod Tests
pub mod Trash
pub mod Collect
