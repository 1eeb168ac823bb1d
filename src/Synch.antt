-- ===== src/Synch.antt =====
-- The replication primitives of fsw/synch.
pub mod Flag
pub mod Duct
pub mod Notepad
pub mod Pipe
pub mod Circular
