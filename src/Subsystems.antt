-- ===== src/Subsystems.antt =====
-- The subsystems of oresat_c3/subsystems.
pub mod Antennas
pub mod Opd
