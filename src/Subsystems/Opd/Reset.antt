-- ===== src/Subsystems/Opd/Reset.antt =====
-- oresat_c3/subsystems/opd.py: `reset` and the properties `status` and `fault` of the cards.
use oresat_c3_software_esi.Base.{
  ℕ, zero, suc, ◌≡◌, refl, ◌⊎◌, Bool, true, false, not, ◌&&◌, ◌||◌, [], arith, testbit,
  if◌then◌else◌, ◌==◌,
}
use oresat_c3_software_esi.Drivers.Max7310.{raises, read_reg, is_valid, output_set, output_clear}
use oresat_c3_software_esi.Drivers.Max7310.Pins.{
  output_set-Drives, output_clear-Drives, output_status-testbit, input_status-testbit,
}
use oresat_c3_software_esi.Drivers.Max7310.Live.{
  IsValid, IsQuiet, output_set-Lives, output_clear-Lives,
}
use oresat_c3_software_esi.Subsystems.Opd.Node.{
  Node, enabled, fault, not_found, enable_pin, not_fault_pin, cb_reset_pin, has_fault, is_enabled,
  reset_try, reset, status,
}

-- The two cards that have no fault line.
abbrev pub has_no_fault_line : Node → Bool
has_no_fault_line n = n.addr == 0x18 || n.addr == 0x1F

-- Does the fault line of the card report a fault? It is active low.
abbrev pub fault_line : Node → Bool
fault_line n = if has_no_fault_line n then false else not (testbit n.chip.input_port not_fault_pin)

-- On a quiet bus `fault` reads the line, and changes nothing.
has_fault_quiet : (n : Node) → IsQuiet n.chip → has_fault n ≡ (fault_line n, n)
unfolding has_fault
has_fault_quiet n q = ground (arith, input_status-testbit not_fault_pin n.chip)

has_fault-output : (n : Node) → (has_fault n).1.chip.output_port ≡ n.chip.output_port
unfolding has_fault
has_fault-output n = ground (arith, input_status-testbit not_fault_pin n.chip)

-- A round ends in `ENABLED` or `FAULT`, and in `ENABLED` only with the breaker's reset pin released.
reset_try-pin :
    (n : Node)
    → let n' = reset_try n in
      (n'.status ≡ fault)
      ⊎ ((n'.status ≡ enabled) × (testbit n'.chip.output_port cb_reset_pin ≡ false))
unfolding reset_try
reset_try-pin n =
    let c = (output_set cb_reset_pin [] n.chip).1 in
    let n1 = record n { chip = (output_clear cb_reset_pin [] c).1 } in
    ground (arith, output_clear-Drives cb_reset_pin cb_reset_pin [] c, has_fault-output n1)

-- After any number of attempts but none, on any bus, the card is `FAULT`, or it is `ENABLED` and
-- the circuit breaker's reset pin is released.
pub reset-pin :
    (attempts : ℕ) (n : Node)
    → let n' = reset (suc attempts) n in
      (n'.status ≡ fault)
      ⊎ ((n'.status ≡ enabled) × (testbit n'.chip.output_port cb_reset_pin ≡ false))
unfolding reset
reset-pin zero n = ground (arith, reset_try-pin n)
reset-pin (suc attempts) n = ground (arith, reset_try-pin n, reset-pin attempts (reset_try n))

reset_try-IsQuiet :
    (n : Node)
    → IsValid n.chip
    → IsQuiet n.chip
    → let n' = reset_try n in
      (n'.status ≡ (if fault_line n then fault else enabled))
      × (fault_line n' ≡ fault_line n)
      × IsValid n'.chip
      × IsQuiet n'.chip
unfolding reset_try
reset_try-IsQuiet n v q =
    let (e, q', v') = output_set-Lives cb_reset_pin n.chip v q refl in
    let c = (output_set cb_reset_pin [] n.chip).1 in
    let n1 = record n { chip = (output_clear cb_reset_pin [] c).1 } in
    ground (
      arith,
      output_clear-Lives cb_reset_pin c v' q' refl,
      output_set-Drives 0 cb_reset_pin [] n.chip,
      output_clear-Drives 0 cb_reset_pin [] c,
      has_fault_quiet n1,
    )

-- On a quiet bus `reset` decides by the fault line, however many attempts it is given.
pub reset_quiet :
    (attempts : ℕ) (n : Node)
    → IsValid n.chip
    → IsQuiet n.chip
    → (reset (suc attempts) n).status ≡ (if fault_line n then fault else enabled)
unfolding reset
reset_quiet zero n v q = ground (arith, reset_try-IsQuiet n v q)
reset_quiet (suc attempts) n v q =
    ground (arith, reset_try-IsQuiet n v q, reset_quiet attempts (reset_try n))

-- The property `status`: a card whose chip does not answer is `NOT_FOUND`, and on a quiet bus a
-- powered card whose fault line is low is `FAULT`; any other status stays.
pub status-not_found : (n : Node) → raises n.chip.bus_errors ≡ true → (status n).0 ≡ not_found
unfolding status is_valid read_reg
status-not_found n h = ground arith

pub status_quiet :
    (n : Node)
    → IsQuiet n.chip
    → (status n).0
      ≡ (if testbit n.chip.output_port enable_pin && fault_line n then fault else n.status)
unfolding status is_valid read_reg is_enabled
status_quiet n q = ground (
  arith,
  output_status-testbit enable_pin (record n.chip { bus_errors = [] }),
  has_fault_quiet (record n { chip = record n.chip { bus_errors = [] } }),
)

-- `status` returns the status that it stores.
pub status-stored : (n : Node) → (status n).0 ≡ (status n).1.status
unfolding status
status-stored n = refl
