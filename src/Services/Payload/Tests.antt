-- ===== src/Services/Payload/Tests.antt =====
-- Inputs, and the theorems that have hypotheses at some of them.
use oresat_c3_software_esi.Base.{
  ℕ, ◌≡◌, refl, inr, Bool, true, false, some, [], ◌∷◌, ◌++◌, replicate, arith,
}
use oresat_c3_software_esi.Drivers.Max7310.{Chip, output_status, read_reg}
use oresat_c3_software_esi.Services.Payload.Beecon
use oresat_c3_software_esi.Services.Payload.Beecon.{Beecon, loop}
use oresat_c3_software_esi.Services.Payload.Hysteresis.{rounds, rounds_low}
use oresat_c3_software_esi.Services.Payload.NeverActive.{run_shutdown_repeats}
use oresat_c3_software_esi.Services.Payload.NextFile.{Found, free_name-Found}
use oresat_c3_software_esi.Services.Payload.Osiris
use oresat_c3_software_esi.Services.Payload.Osiris.{Osiris}
use oresat_c3_software_esi.Services.Payload.PiPlasma.{free_name, disable}
use oresat_c3_software_esi.Drivers.Max7310.Live.{IsValid}
use oresat_c3_software_esi.Services.Payload.PowerSaving.{
  round, command, power_low, run, loops_power_low, loops_power_good, run-new-IsSound, rounds_silent,
}
use oresat_c3_software_esi.Services.Payload.Service.{Payload}
use oresat_c3_software_esi.Services.Payload.Silence.{powered, IsSound}
use oresat_c3_software_esi.Subsystems.Opd.Node.{is_enabled, plain, enabled, disabled}

abbrev card_on : Chip
card_on = record {
  input_port = 0;
  output_port = 0b0000_1000;
  polarity_inversion = 0;
  configuration = 4;
  timeout = 1;
  bus_errors = [];
}

abbrev transmitting : Beecon
transmitting = record {
  state = 1;
  ore_beacon = 0;
  ore_beacon_default = 30;
  pwr_event = true;
  beecon_node = record { kind = plain; addr = 0x10; chip = card_on; status = enabled };
  failed = false;
}

abbrev resting : Beecon
resting = record {
  state = 2;
  ore_beacon = 30;
  ore_beacon_default = 30;
  pwr_event = false;
  beecon_node = record {
    kind = plain;
    addr = 0x10;
    chip = record card_on { output_port = 0 };
    status = disabled;
  };
  failed = false;
}

transmitting-IsSound : IsSound transmitting
unfolding is_enabled output_status read_reg
transmitting-IsSound = (omega arith, refl, cc, refl)

resting-powered : powered resting ≡ false
unfolding is_enabled output_status read_reg
resting-powered = refl

resting-IsSound : IsSound resting
unfolding is_enabled output_status read_reg
resting-IsSound = (omega arith, refl, cc, tt)

loops_power_low_example :
    (powered (loop (loop transmitting)) ≡ false)
    × ((loop (loop transmitting)).ore_beacon ≡ 30)
    × ((loop (loop transmitting)).state ≡ 2)
loops_power_low_example = loops_power_low transmitting transmitting-IsSound refl refl refl

loops_power_good_example :
    (powered (loop (loop resting)) ≡ true)
    × ((loop (loop resting)).ore_beacon ≡ 0)
    × ((loop (loop resting)).state ≡ 1)
loops_power_good_example = loops_power_good resting resting-IsSound refl refl refl

card_on-IsValid : IsValid card_on
card_on-IsValid = omega arith

run-new-IsSound_example :
    IsSound (
      run (command 1 ∷ round ∷ round ∷ power_low true ∷ round ∷ []) (Beecon.new 0 30 false card_on))
run-new-IsSound_example =
    run-new-IsSound (command 1 ∷ round ∷ round ∷ power_low true ∷ round ∷ []) 0 30 false card_on
      card_on-IsValid refl

abbrev unlucky : Beecon
unlucky = record resting { state = 0; ore_beacon = 0 }

unlucky-IsSound : IsSound unlucky
unfolding is_enabled output_status read_reg
unlucky-IsSound = (omega arith, refl, cc, tt)

rounds_silent_example : (run (replicate 3 round) unlucky).ore_beacon ≡ 0
rounds_silent_example = rounds_silent 3 unlucky unlucky-IsSound refl refl resting-powered refl

free_name-Found_example : Found 5 (9 ∷ 5 ∷ 6 ∷ []) 4 (free_name 5 (9 ∷ 5 ∷ 6 ∷ []))
free_name-Found_example = free_name-Found 5 (9 ∷ 5 ∷ 6 ∷ [])

abbrev stopped : Osiris
stopped = record (Osiris.new 0 [] false false [] []) { last_state_val = 1 }

run_shutdown_repeats_example : (Osiris.run 3 stopped).node_calls ≡ replicate 3 disable ++ []
run_shutdown_repeats_example = run_shutdown_repeats 3 stopped refl refl (omega arith)

abbrev broken : ℕ → Bool → Unit {0} → Bool × ℕ × Unit {0}
broken state event h = (false, state, h)

abbrev payload : Payload (Unit {0}) broken
payload = record { state = 1; enabled = true; power_event = false; handler = some tt }

rounds_low_example :
    (rounds
      (Unit {0})
      broken
      (record { vbatt_bp1 = 6400; vbatt_bp2 = 6300 }
        ∷ record { vbatt_bp1 = 7600; vbatt_bp2 = 7400 }
        ∷ [])
      payload).power_event
    ≡ true
rounds_low_example =
    rounds_low (Unit {0}) broken (record { vbatt_bp1 = 6400; vbatt_bp2 = 6300 })
      (record { vbatt_bp1 = 7600; vbatt_bp2 = 7400 } ∷ []) payload refl (omega arith) (omega arith)
      (inr (omega arith), tt)
