-- ===== src/Storage.antt =====
-- The in-memory storages (packages/raft-core/src/storage/inMemory).
pub mod Meta
pub mod Config
pub mod Log
pub mod Snapshot
