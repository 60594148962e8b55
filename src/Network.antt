-- ===== src/Network.antt =====
-- cxNetwork: the multiplexer and the streams under it.
pub mod Line
pub mod Multiplexer
pub mod Stream
