-- ===== src/Subsystems/Opd/Probe.antt =====
-- oresat_c3/subsystems/opd.py: `probe`, `reset` and the properties `status` and `fault` of the
-- cards.
use oresat_c3_software_esi.Base.{
  ◌<◌, ◌≡◌, ◌≢◌, refl, ◌⊎◌, Bool, true, false, [], arith, testbit, if◌then◌else◌,
}
use oresat_c3_software_esi.Drivers.Max7310.{raises, read_reg, is_valid}
use oresat_c3_software_esi.Drivers.Max7310.Live.{
  IsQuiet, configure_ok, configure-Configures, reset_ok,
}
use oresat_c3_software_esi.Subsystems.Opd.Node.{
  Node, Kind, plain, stm32, mcxn, octavo, disabled, enabled, fault, dead, not_found, enable_pin,
  inputs, configure, probe_reset, probe,
}

-- What `probe` returned is what the status says: a dead card is left alone, and any other is
-- `DISABLED` where `probe` found it and `NOT_FOUND` where it did not.
pub probe-status :
    (r : Bool) (n : Node)
    → let (found, n') = probe r n in
      ((n.status ≡ dead) × (found ≡ false) × (n' ≡ n))
      ⊎ ((n.status ≢ dead) × (n'.status ≡ (if found then disabled else not_found)))
unfolding probe
probe-status r n = ground arith

inputs-lt : (k : Kind) → inputs k < 256
inputs-lt plain = omega arith
inputs-lt stm32 = omega arith
inputs-lt mcxn = omega arith
inputs-lt octavo = omega arith

-- On a quiet bus `configure` writes the class's directions and clears every output.
pub configure_quiet :
    (n : Node)
    → IsQuiet n.chip
    → configure n ≡ record n {
      chip = record n.chip {
        output_port = 0;
        polarity_inversion = 0;
        configuration = inputs n.kind;
        timeout = 1;
        bus_errors = [];
      };
      status = disabled;
    }
unfolding configure
configure_quiet n q = rw (
    configure_ok 0 0 (inputs n.kind) 1 n.chip q (omega arith) (omega arith) (inputs-lt n.kind)
      (omega arith))

-- What is left of `n` once it was reset and configured.
abbrev pub off : Node → Node
off n = record n {
  chip = record n.chip {
    output_port = 0;
    polarity_inversion = 0;
    configuration = inputs n.kind;
    timeout = 1;
    bus_errors = [];
  };
  status = disabled;
}

-- The card on whose chip `reset` has returned.
abbrev reset_chip : Node → Node
reset_chip n = record n {
  chip = record n.chip {
    output_port = 0x00;
    polarity_inversion = 0xF0;
    configuration = 0xFF;
    timeout = 0x01;
    bus_errors = [];
  };
}

probe_reset_quiet : (n : Node) → IsQuiet n.chip → probe_reset true n ≡ off n
unfolding probe_reset
probe_reset_quiet n q = ground (arith, reset_ok n.chip q, configure_quiet (reset_chip n) refl)

-- On a quiet bus a probe that resets finds every card that is not dead, and leaves it powered off:
-- no output set, the pins of its class as inputs, no inverted pin.
pub probe_powers_off : (n : Node) → n.status ≢ dead → IsQuiet n.chip → probe true n ≡ (true, off n)
unfolding probe is_valid read_reg
probe_powers_off n h q =
    ground (arith, q, probe_reset_quiet n q, configure_quiet n q, probe_reset_quiet (configure n))

-- A probe that does not reset marks a running card `DISABLED` and leaves its enable pin set.
pub probe_keeps_power :
    (n : Node)
    → n.status ≡ enabled
    → raises n.chip.bus_errors ≡ false
    → let (found, n') = probe false n in
      (found ≡ true)
      × (n'.status ≡ disabled)
      × (testbit n'.chip.output_port enable_pin ≡ testbit n.chip.output_port enable_pin)
unfolding probe is_valid read_reg
probe_keeps_power n h q = ground arith

-- The card after the one transfer of `is_valid`.
abbrev pub probed : Node → Node
probed n = record n { chip = (is_valid n.chip).1 }

-- A probe that does not reset reports a new card found and `DISABLED` although its configuration
-- failed: the pin directions were not written.
pub probe_hides_failure :
    (n : Node)
    → n.status ≡ not_found
    → raises n.chip.bus_errors ≡ false
    → (configure (probed n)).status ≡ fault
    → let (found, n') = probe false n in
      (found ≡ true) × (n'.status ≡ disabled) × (n'.chip.configuration ≡ n.chip.configuration)
unfolding probe is_valid read_reg configure probe_reset
probe_hides_failure n h q f =
    ground (arith, configure-Configures 0 0 (inputs n.kind) 1 (probed n).chip)
