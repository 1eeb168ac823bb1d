-- ===== src/Bus/Codec.antt =====
-- bus/codec.c and include/bus/codec.h: control characters and escaped data bytes on a byte line. The
-- encoder's buffer is the list of the bytes written so far (`tx_offset` is its length); the decoder's
-- is the list of the bytes not yet read (from `rx_offset` up to `rx_length`), so that stepping the
-- offset back is to leave the list as it was. Bytes are numbers below 256.
pub mod Symbol
mod Encode
mod Tests
mod Decode
pub mod Total
pub mod Line
pub mod Reading
pub mod Writing
pub mod Tokens
pub mod Stream
unfoldable pub use Encode.*
unfoldable pub use Decode.*
