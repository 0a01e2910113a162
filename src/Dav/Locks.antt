-- ===== src/Dav/Locks.antt =====
-- Locks of WebDAV: internal/dav/locks.go, and toPath and destPath of internal/dav/dav.go. The lock
-- system behind them is a parameter with a state of its own, and each call of it is told the time.
pub mod System
pub mod Paths
pub mod Confirm
pub mod Released
pub mod Balance
pub mod Claims
pub mod Holds
