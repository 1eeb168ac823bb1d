-- ===== src/Synch/Circular.antt =====
-- synch/circular.h: the circular buffer of a single clip. Its counters wrap at 2 ^ 32, and a place of
-- the storage is a counter modulo the size.
mod Defs
mod Tests
pub mod Segment
pub mod Represents
pub mod Filling
pub mod Queue
unfoldable pub use Defs.*
