-- ===== src/Bus/Rmap.antt =====
-- The RMAP client: fsw/bus/rmap.c, fsw/bus/rmap_helpers.c and fsw/include/bus/rmap.h.
pub mod Crc
mod Defs
mod Tests
pub mod Replies
pub mod Requests
unfoldable pub use Defs.*
