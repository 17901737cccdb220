-- ===== src/Services/Payload.antt =====
-- oresat_c3/services/payload.py: the payload service and the handlers of the payloads.
pub mod Beecon
pub mod Silence
pub mod PowerSaving
pub mod Service
pub mod Hysteresis
pub mod PiPlasma
pub mod NextFile
pub mod Osiris
pub mod NeverActive
mod Tests
