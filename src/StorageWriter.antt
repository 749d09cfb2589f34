-- ===== src/StorageWriter.antt =====
-- storage_writer.go
pub mod Queue
mod Execute
mod Batches
mod InOrder
mod Drain
mod Tests
