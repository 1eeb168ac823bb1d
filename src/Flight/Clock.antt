-- ===== src/Flight/Clock.antt =====
-- The inline functions of include/flight/clock.h: the vote on the clock's offset, and the mission time.
-- The replicas' offsets are 64-bit two's complement numbers, and times are 64-bit.
mod Defs
mod Tests
pub mod Vote
unfoldable pub use Defs.*
