-- ===== src/RaftLog.antt =====
-- raft_log.go
pub mod Runs
pub mod Segments
pub mod Defs
pub mod History
mod RunIndex
mod RunCuts
pub mod Unstable
mod UnstableCuts
mod Release
pub mod Models
pub mod Terms
pub mod Append
pub mod Truncate
mod Prefix
pub mod Install
mod LastOfTerm
pub mod Stable
pub mod Merge
pub mod Agree
mod Tests
