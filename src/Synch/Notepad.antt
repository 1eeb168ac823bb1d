-- ===== src/Synch/Notepad.antt =====
-- synch/notepad.c and include/synch/notepad.h, as built with voting notepads: state that is fed forward
-- from cycle to cycle by a vote. Each replica has two regions, of which one is read while the other
-- is written.
mod Defs
mod Tests
pub mod Vote
pub mod Feedforward
pub mod Cycle
unfoldable pub use Defs.*
