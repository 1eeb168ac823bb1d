-- ===== src/Vivid/Watchdog.antt =====
-- vivid/watchdog.c, as built with monitored aspects: the clips that decide whether the hardware watchdog
-- is fed, and with what. The device's registers are a parameter.
mod Food
mod Voter
mod Tests
pub mod Power
pub mod Vote
pub mod Monitor
unfoldable pub use Food.*
unfoldable pub use Voter.*
