-- ===== src/State.antt =====
-- The state that a node keeps (packages/raft-core/src/state).
pub mod Persistent
pub mod Volatile
pub mod Leader
