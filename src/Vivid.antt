-- ===== src/Vivid.antt =====
-- vivid/: the embedded platform.
pub mod Watchdog
