-- ===== src/Recovery.antt =====
-- recovery.go: reading the storage of a stopped node, and rewriting the membership in it.
pub mod Members
pub mod Defs
mod Replay
mod Store
mod Rewrite
pub mod Restart
mod Tests
