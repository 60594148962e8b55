-- ===== src/Protocols.antt =====
-- cxProtocols: the routines of the protocol libraries that work on values alone.
pub mod Base64
