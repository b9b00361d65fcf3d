-- ===== src/Crossing.antt =====
-- A file that crosses the link: the sender's packets, some of which are lost, at the receiver.
pub mod Keep
pub mod Cut
pub mod Codec
pub mod Pieces
pub mod Batches
pub mod Arrival
pub mod File
