-- ===== src/Subsystems/Opd.antt =====
-- oresat_c3/subsystems/opd.py: the OreSat Power Domain.
pub mod Node
pub mod Power
pub mod Probe
pub mod Boot
pub mod Reset
pub mod Sband
pub mod System
pub mod Control
pub mod Recovery
pub mod Uart
mod Tests
