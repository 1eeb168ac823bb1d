-- ===== src/Bus.antt =====
-- The spacecraft bus of fsw/bus.
pub mod Codec
pub mod Exchange
pub mod Rmap
pub mod Switch
