-- ===== src/Synch/Pipe.antt =====
-- synch/pipe.c, include/synch/pipe.h, synch/pipebuf.c and include/synch/pipebuf.h: a duct with
-- backpressure, and the byte buffers at its two ends. The names keep their prefix, to tell them from
-- those of the ducts below. A buffer is the list of the bytes that are to be sent, or not read yet;
-- what else its scratch memory holds is never looked at.
mod Defs
mod Buffer
mod Tests
pub mod Sending
pub mod Commit
pub mod Filling
pub mod Asking
unfoldable pub use Defs.*
unfoldable pub use Buffer.*
