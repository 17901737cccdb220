-- ===== src/Services/Radios.antt =====
-- oresat_c3/services/radios.py: the S-band radio and its downlink, the L-band and UHF radios.
pub mod Sband
pub mod Boot
pub mod BringUp
pub mod Lband
pub mod Uhf
pub mod Link
pub mod Service
pub mod Quiet
pub mod Unsent
pub mod Deaf
pub mod Switched
mod Tests
