-- ===== src/Subsystems/Opd/Tests.antt =====
-- Runs of the OPD, and the instances of its theorems.
use oresat_c3_software_esi.Base.{◌≡◌, refl, true, false, none, some, [], ◌∷◌, arith}
use oresat_c3_software_esi.Drivers.Max7310.{Chip, read_reg, write_reg, add_pins, pin_mask}
use oresat_c3_software_esi.Drivers.Max7310
use oresat_c3_software_esi.Drivers.Max7310.Live.{IsQuiet}
use oresat_c3_software_esi.Drivers.Max7310.Live
use oresat_c3_software_esi.Subsystems.Opd.Node.{
  Node, stm32, mcxn, octavo, disabled, enabled, fault, not_found, enable, disable, is_enabled,
  configure,
}
use oresat_c3_software_esi.Subsystems.Opd.Power.{disable_ok}
use oresat_c3_software_esi.Subsystems.Opd.Probe.{probed}
use oresat_c3_software_esi.Subsystems.Opd.Sband.{card, sband, new_sband}
use oresat_c3_software_esi.Subsystems.Opd.System.{
  Opd, OpdState, Result, ok, key_error, opd_error, scan_nodes,
}
use oresat_c3_software_esi.Subsystems.Opd.System
use oresat_c3_software_esi.Subsystems.Opd.Control.{IsValid, AllOff, domain_disable_ok}

-- A card's chip with the enable pin set, and the fault line high, on a quiet bus.
abbrev chip : Chip
chip = record {
  input_port = 4;
  output_port = 0b0000_1000;
  polarity_inversion = 0;
  configuration = 7;
  timeout = 1;
  bus_errors = [];
}

chip-IsValid : Live.IsValid chip
chip-IsValid = omega arith

-- The same chip with its fault line low.
abbrev faulty_chip : Chip
faulty_chip = record chip { input_port = 0 }

abbrev battery : Node
battery = record { kind = stm32; addr = 0x1C; chip = chip; status = enabled }

abbrev lost : Node
lost = record battery { kind = mcxn; status = not_found }

-- A new card whose bus fails in the middle of `configure`.
abbrev shaky : Node
shaky = record {
  kind = octavo;
  addr = 0x19;
  chip = record chip { bus_errors = false ∷ false ∷ true ∷ [] };
  status = not_found;
}

abbrev domain : Opd
domain = record {
  mock = false;
  nodes = (1, card battery) ∷ (2, card lost) ∷ (3, sband (new_sband false)) ∷ [];
  status = OpdState.fault;
  uart_node = some 1;
  not_enable = false;
  resets = 0;
  fault_readings = some false ∷ some false ∷ none ∷ [];
}

battery_boots : (enable true battery).chip.output_port ≡ 0b0010_1000
unfolding enable Max7310.output_set pin_mask add_pins Max7310.set_configuration read_reg write_reg
battery_boots = refl

domain-IsValid : IsValid domain
domain-IsValid k e = ground arith

disable_ok_example :
    let n = disable battery in
    (n.status ≡ disabled) × ((is_enabled n).0 ≡ false) × Live.IsValid n.chip × IsQuiet n.chip
disable_ok_example = disable_ok battery chip-IsValid refl

shaky_fails : (configure (probed shaky)).status ≡ fault
unfolding configure Max7310.configure Max7310.is_valid read_reg write_reg
shaky_fails = refl

domain_disable_ok_example :
    let (r, o) = System.disable domain in
    (r ≡ ok tt)
    × AllOff o.nodes
    × (o ≡ record domain {
      not_enable = true;
      nodes = o.nodes;
      status = OpdState.disabled;
      uart_node = none;
      resets = 0;
    })
domain_disable_ok_example = domain_disable_ok domain domain-IsValid
