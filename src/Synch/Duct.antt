-- ===== src/Synch/Duct.antt =====
-- synch/duct.c and include/synch/duct.h: the one-way, replicated channel. A duct is a value that each
-- call takes and returns; the arrays behind its pointers are functions of the index. Log output
-- (debugf, and miscomparef outside strict mode) is left out; assertf, abortf and malfunctionf end the
-- call with `aborted`. A pointer check has no counterpart, since there is no null duct here.
mod Defs
mod Tests
pub mod Offer
pub mod Vote
pub mod Send
pub mod Receive
pub mod Session
pub mod Solo
pub mod Round
unfoldable pub use Defs.*
