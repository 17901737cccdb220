-- ===== src/Services/Beacon/Leop.antt =====
-- oresat_c3/services/beacon.py: the repeated beacon of LEOP.
use oresat_c3_software_esi.Base.{ℕ, ◌+◌, ◌*◌, ◌/◌, ◌^◌, ◌≤◌, ◌<◌, ◌≡◌, List, ◌++◌}
use oresat_c3_software_esi.Protocols.Ax25
use oresat_c3_software_esi.Services.Beacon
use oresat_c3_software_esi.Services.Beacon.{Beacon, Result, ok}
use oresat_c3_software_esi.Services.Radios.Link.{Message, Radios}

-- The service has returned and has added `messages` to what went out.
record Added (messages : List Message) (b : Beacon) (p : Result × Beacon) : Type 0 where
  returned : p.0 ≡ ok
  added : p.1.radios.beacons ≡ b.radios.beacons ++ messages

-- The quotient of floats, of a timeout of four bytes: off by one at most from the whole part of the
-- exact quotient.
abbrev pub IsClose : (ℕ → ℕ → ℕ) → Type 0
IsClose quotient =
    (timeout len : ℕ)
    → timeout < 2 ^ 32
    → (timeout * 45 / (8 * (len + 200)) ≤ quotient timeout len + 1)
      × (quotient timeout len ≤ timeout * 45 / (8 * (len + 200)) + 1)
