-- ===== src/Subsystems/Antennas/Tests.antt =====
-- oresat_c3/subsystems/antennas.py: runs at fixed values.
use oresat_c3_software_esi.Base.{map, ◌≡◌, refl, true, false, [], ◌∷◌}
use oresat_c3_software_esi.Drivers.Max7310.{
  Chip, configure, output_clear, set_configuration, read_reg, write_reg, pin_mask, add_pins,
}
use oresat_c3_software_esi.Subsystems.Antennas.{
  live_inputs, fire, deploy_card, Card, mz_end, pz_end, mz_mid, pz_mid, Antennas, deploy,
}
use oresat_c3_software_esi.Subsystems.Antennas.Firing.{safed, both, deploy_ok}

abbrev chip : Chip
chip = record {
  input_port = 0;
  output_port = 0;
  polarity_inversion = 0xF0;
  configuration = 0xFF;
  timeout = 1;
  bus_errors = [];
}

abbrev antennas : Antennas
antennas = record { chips = λ card. chip; fired = [] }

deploy_ok_example :
    ((deploy antennas).fired ≡ map both (mz_end ∷ pz_end ∷ mz_mid ∷ pz_mid ∷ []))
    × ((card : Card) → (deploy antennas).chips card ≡ safed chip)
deploy_ok_example = deploy_ok antennas (λ card. refl)

-- The bus fails once the pins are driven.
abbrev lost : Chip
lost = record chip { bus_errors = false ∷ false ∷ false ∷ false ∷ true ∷ true ∷ [] }

-- Its firing pins stay driven.
still_driven :
    ((deploy_card lost).1.configuration ≡ live_inputs) × ((deploy_card lost).1.output_port ≡ fire)
unfolding deploy_card configure output_clear set_configuration read_reg write_reg pin_mask add_pins
still_driven = (refl, refl)
