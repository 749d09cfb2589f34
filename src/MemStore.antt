-- ===== src/MemStore.antt =====
-- storage/memstore/memstore.go: the reference implementation of the storage contract.
pub mod Defs
pub mod Log
mod Tests
