-- ===== src/ConfigEntry.antt =====
-- config_change.go
pub mod Defs
pub mod RoundTrip
mod Tests
