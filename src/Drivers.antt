-- ===== src/Drivers.antt =====
-- The drivers of oresat_c3/drivers.
pub mod Fm24cl64b
pub mod Max7310
pub mod Si41xx
