-- ===== src/Protocols.antt =====
-- oresat_c3/protocols
pub mod Ax25
pub mod CacheStore
pub mod EdlCommand
pub mod EdlPacket
pub mod Sample
pub mod Sdls
pub mod Uslp
