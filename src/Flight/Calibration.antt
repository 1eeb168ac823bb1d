-- ===== src/Flight/Calibration.antt =====
-- flight/clock.c and include/flight/clock_cal.h: the replicas read the spacecraft's clock over RMAP, and
-- keep its offset from the local time.
mod Defs
mod Tests
pub mod Offset
unfoldable pub use Defs.*
