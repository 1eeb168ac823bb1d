-- ===== src/Flight/Comm.antt =====
-- flight/comm.c and include/flight/comm.h: telecommands out of an uplink pipe, and telemetry into a
-- downlink pipe. The decoder's buffer is the list of its first `decode_offset` bytes, and the encoder
-- and decoder hold their ends of the pipes. `crc32` is zlib's.
mod Decode
mod Encode
mod Tests
pub mod Frame
pub mod Fields
pub mod Sound
pub mod Packets
pub mod Symbols
pub mod Total
pub mod Uplink
pub mod Reception
pub mod Downlink
unfoldable pub use Decode.*
unfoldable pub use Encode.*
