-- ===== src/ClientTable.antt =====
-- client_dedup.go
pub mod Defs
mod Lru
mod Others
pub mod Codec
mod RoundTrip
mod Frames
mod Tests
mod SetCap
