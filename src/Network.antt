-- ===== src/Network.antt =====
-- The network layer: Source/Core/Network.
pub mod Packet
pub mod Receive
pub mod Stream
pub mod Send
