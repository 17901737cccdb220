-- ===== src/Services.antt =====
-- The services of oresat_c3/services.
pub mod State
pub mod NodeFlasher
pub mod NodeManager
pub mod ChannelRouter
pub mod Edl
pub mod Radios
pub mod Payload
pub mod Beacon
