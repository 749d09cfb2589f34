-- ===== src/Balance.antt =====
-- balance.go: the planner that spreads leaders over the hosts.
pub mod Defs
mod Load
pub mod Handovers
pub mod Plans
mod Tests
