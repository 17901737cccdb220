-- ===== src/Drivers/Max7310/Tests.antt =====
-- Runs of the MAX7310 driver, and the instances of its theorems.
use oresat_c3_software_esi.Base.{◌≡◌, refl, true, false, [], ◌∷◌, arith}
use oresat_c3_software_esi.Drivers.Max7310.{
  Chip, err, bad_address, invalid_pin, bus_error, new, output_set, add_pins, pin_mask, read_reg,
  write_reg,
}
use oresat_c3_software_esi.Drivers.Max7310.Live.{IsValid}

-- A chip after power on, whose pins 1 and 4 were set; the bus is quiet.
abbrev chip : Chip
chip = record {
  input_port = 4;
  output_port = 0b0001_0010;
  polarity_inversion = 0xF0;
  configuration = 0xFF;
  timeout = 1;
  bus_errors = [];
}

-- The same chip on a bus that fails at the second transfer.
abbrev failing : Chip
failing = record chip { bus_errors = false ∷ true ∷ [] }

chip-IsValid : IsValid chip
chip-IsValid = omega arith

no_such_address : new 7 0 [] ≡ err bad_address
unfolding new
no_such_address = refl

set_two : (output_set 3 (5 ∷ []) chip).1.output_port ≡ 0b0011_1010
unfolding output_set pin_mask add_pins read_reg write_reg
set_two = refl

set_bad_pin : (output_set 3 (8 ∷ []) chip).0 ≡ err invalid_pin
unfolding output_set pin_mask add_pins
set_bad_pin = refl

set_fails : (output_set 3 [] failing).0 ≡ err bus_error
unfolding output_set pin_mask add_pins read_reg write_reg
set_fails = refl
