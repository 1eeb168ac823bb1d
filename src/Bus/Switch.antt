-- ===== src/Bus/Switch.antt =====
-- bus/switch.c and include/bus/switch.h: the packet switch between ducts. A port holds its ducts
-- themselves, `none` for a null pointer: no duct belongs to two ports.
mod Defs
mod Tests
pub mod Sending
pub mod Forward
unfoldable pub use Defs.*
