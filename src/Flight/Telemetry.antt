-- ===== src/Flight/Telemetry.antt =====
-- flight/telemetry.c and include/flight/telemetry.h: telemetry messages over ducts and pipes, and the
-- pump that turns them into packets of the downlink.
mod Submit
mod Messages
mod Pump
mod Tests
pub mod Session
pub mod Packets
pub mod Account
pub mod Async
pub mod Buffered
unfoldable pub use Submit.*
unfoldable pub use Messages.*
unfoldable pub use Pump.*
