-- ===== src/Receive.antt =====
-- The receiver, diode_receive/src/main.rs: one module for each part of it.
pub mod Packet
pub mod State
pub mod Chunk
pub mod Buffer
pub mod Finalize
pub mod Transfer
pub mod LogSafe
pub mod Display
pub mod Worker
pub mod Session
