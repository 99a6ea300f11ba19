-- ===== src/Storage.antt =====
-- src/storage: the stores behind the server.
pub mod Memory
pub mod Escape
pub mod Wal
pub mod Snapshot
pub mod Persistent
