-- ===== src/Mem.antt =====
-- cxMem: byte containers and stream parsers.
pub mod Memory
pub mod Search
pub mod Chunks
pub mod Linear
pub mod Reference
pub mod Strings
pub mod StreamParser
pub mod SubParser
pub mod UrlCoder
