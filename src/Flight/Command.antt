-- ===== src/Flight/Command.antt =====
-- flight/command.c and include/flight/command.h: the clip that hands a telecommand to the endpoints, and
-- what an endpoint's client calls; and the client flight/pingback.c.
mod Defs
mod Tests
pub mod Dispatch
pub mod Clip
pub mod Reply
pub mod Ping
unfoldable pub use Defs.*
