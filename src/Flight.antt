-- ===== src/Flight.antt =====
-- flight/: the code of the spacecraft's own functions.
pub mod Comm
pub mod Clock
pub mod Telemetry
pub mod Command
pub mod Heartbeat
pub mod Calibration
