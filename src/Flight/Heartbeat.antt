-- ===== src/Flight/Heartbeat.antt =====
-- flight/heartbeat.c: a heartbeat message in each period.
mod Defs
mod Tests
pub mod Beat
unfoldable pub use Defs.*
