-- ===== src/Bus/Exchange.antt =====
-- bus/exchange.c and include/bus/exchange.h: the link protocol between two bus ends. A handshake brings
-- the link up; flow-control tokens give the other end leave to send packets; keep-alives compare counts.
mod Defs
mod Tests
mod Receive
mod Transmit
pub mod Invariant
pub mod Incoming
pub mod Reception
pub mod Outgoing
pub mod Sending
pub mod Timers
unfoldable pub use Defs.*
unfoldable pub use Receive.*
unfoldable pub use Transmit.*
