-- ===== src/Subsystems/Opd/Power.antt =====
-- oresat_c3/subsystems/opd.py: `enable`, `disable` and `is_enabled` of the cards, against the
-- enable pin of the MAX7310.
use oresat_c3_software_esi.Base.{
  ◌≡◌, ◌≢◌, refl, ◌⊎◌, Bool, true, false, [], arith, testbit, if◌then◌else◌,
}
use oresat_c3_software_esi.Drivers.Max7310.{
  Chip, answered, output_set, output_clear, set_configuration,
}
use oresat_c3_software_esi.Drivers.Max7310.Pins.{
  output_set-Drives, output_clear-Drives, output_status-testbit,
}
use oresat_c3_software_esi.Drivers.Max7310.Live.{
  IsValid, IsQuiet, Lives, output_set-Lives, output_clear-Lives, set_configuration-Lives,
  then-Lives, set_configuration-outputs,
}
use oresat_c3_software_esi.Subsystems.Opd.Node.{
  Node, Kind, plain, stm32, mcxn, octavo, disabled, enabled, fault, not_found, enable_pin, boot_pin,
  stm32_on_inputs, stm32_off_inputs, mcxn_on_inputs, mcxn_off_inputs, before_enable, before_disable,
  enable, disable, is_enabled,
}

-- The preparations touch the boot pin and the directions, and never the enable pin.
before_enable-enable_pin :
    (k : Kind) (b : Bool) (c : Chip)
    → testbit (before_enable k b c).1.output_port enable_pin ≡ testbit c.output_port enable_pin
before_enable-enable_pin plain b c = refl
before_enable-enable_pin stm32 true c =
    grind (arith, output_set-Drives enable_pin, set_configuration-outputs)
before_enable-enable_pin stm32 false c =
    grind (arith, output_clear-Drives enable_pin, set_configuration-outputs)
before_enable-enable_pin mcxn true c =
    grind (arith, output_clear-Drives enable_pin, set_configuration-outputs)
before_enable-enable_pin mcxn false c =
    grind (arith, output_set-Drives enable_pin, set_configuration-outputs)
before_enable-enable_pin octavo b c = grind (arith, output_set-Drives enable_pin)

before_disable-enable_pin :
    (k : Kind) (c : Chip)
    → testbit (before_disable k c).1.output_port enable_pin ≡ testbit c.output_port enable_pin
before_disable-enable_pin plain c = refl
before_disable-enable_pin stm32 c =
    grind (arith, output_clear-Drives enable_pin, set_configuration-outputs)
before_disable-enable_pin mcxn c =
    grind (arith, output_set-Drives enable_pin, set_configuration-outputs)
before_disable-enable_pin octavo c = refl

-- On a quiet bus the preparations return, and leave a valid chip on a quiet bus.
pub before_enable-Lives :
    (k : Kind) (b : Bool) (c : Chip) → IsValid c → IsQuiet c → Lives (before_enable k b) c
before_enable-Lives plain b c v q = (refl, q, v)
before_enable-Lives stm32 true c v q =
    then-Lives (set_configuration stm32_on_inputs) (output_set boot_pin []) c
      (set_configuration-Lives stm32_on_inputs c v q (omega arith))
      (λ c' v' q'. output_set-Lives boot_pin c' v' q' refl)
before_enable-Lives stm32 false c v q =
    then-Lives (output_clear boot_pin []) (set_configuration stm32_off_inputs) c
      (output_clear-Lives boot_pin c v q refl)
      (λ c' v' q'. set_configuration-Lives stm32_off_inputs c' v' q' (omega arith))
before_enable-Lives mcxn true c v q =
    then-Lives (output_clear boot_pin []) (set_configuration mcxn_on_inputs) c
      (output_clear-Lives boot_pin c v q refl)
      (λ c' v' q'. set_configuration-Lives mcxn_on_inputs c' v' q' (omega arith))
before_enable-Lives mcxn false c v q =
    then-Lives (set_configuration mcxn_off_inputs) (output_set boot_pin []) c
      (set_configuration-Lives mcxn_off_inputs c v q (omega arith))
      (λ c' v' q'. output_set-Lives boot_pin c' v' q' refl)
before_enable-Lives octavo b c v q = output_set-Lives boot_pin c v q refl

-- `disable` prepares a card the way `enable` does outside the bootloader mode, but for the octavo.
before_disable-Lives : (k : Kind) (c : Chip) → IsValid c → IsQuiet c → Lives (before_disable k) c
before_disable-Lives plain c v q = (refl, q, v)
before_disable-Lives stm32 c v q = before_enable-Lives stm32 false c v q
before_disable-Lives mcxn c v q = before_enable-Lives mcxn false c v q
before_disable-Lives octavo c v q = (refl, q, v)

-- What the status says is true of the enable pin, on any bus: a card is `ENABLED` after `enable`
-- only with the pin set.
pub enable-pin :
    (b : Bool) (n : Node)
    → (enable b n).status ≡ enabled
    → n.status ≢ enabled
    → testbit (enable b n).chip.output_port enable_pin ≡ true
unfolding enable
enable-pin b n h ne = grind (arith, output_set-Drives enable_pin)

-- And `DISABLED` after `disable` only with the pin clear; the one other outcome is `FAULT`.
pub disable-pin :
    (n : Node)
    → let n' = disable n in
      ((n'.status ≡ disabled) × (testbit n'.chip.output_port enable_pin ≡ false))
      ⊎ (n'.status ≡ fault)
unfolding disable
disable-pin n = grind (arith, output_clear-Drives enable_pin)

-- On a quiet bus `enable` of a card that was found powers it, in either mode, and leaves a valid
-- chip on a quiet bus.
pub enable_ok :
    (b : Bool) (n : Node)
    → IsValid n.chip
    → IsQuiet n.chip
    → n.status ≢ not_found
    → let n' = enable b n in
      (n'.status ≡ enabled) × ((is_enabled n').0 ≡ true) × IsValid n'.chip × IsQuiet n'.chip
unfolding enable is_enabled
enable_ok b n v q f =
    let (r, q', v') = before_enable-Lives n.kind b n.chip v q in
    let c' = (before_enable n.kind b n.chip).1 in
    grind (
      arith,
      output_set-Lives enable_pin c' v' q' refl,
      output_set-Drives enable_pin enable_pin [] c',
      output_status-testbit enable_pin (output_set enable_pin [] c').1,
    )

-- On a quiet bus `disable` powers any card off, whatever its status was.
pub disable_ok :
    (n : Node)
    → IsValid n.chip
    → IsQuiet n.chip
    → let n' = disable n in
      (n'.status ≡ disabled) × ((is_enabled n').0 ≡ false) × IsValid n'.chip × IsQuiet n'.chip
unfolding disable is_enabled
disable_ok n v q =
    let (r, q', v') = before_disable-Lives n.kind n.chip v q in
    let c' = (before_disable n.kind n.chip).1 in
    grind (
      arith,
      output_clear-Lives enable_pin c' v' q' refl,
      output_clear-Drives enable_pin enable_pin [] c',
      output_status-testbit enable_pin (output_clear enable_pin [] c').1,
    )

-- A card that was not found is not powered, on any bus: its enable pin stays, and so does its
-- status, but for a card whose preparation raises, which is `FAULT`.
pub enable_not_found :
    (b : Bool) (n : Node)
    → n.status ≡ not_found
    → let n' = enable b n in
      (testbit n'.chip.output_port enable_pin ≡ testbit n.chip.output_port enable_pin)
      × (n'.status ≡ (if answered (before_enable n.kind b n.chip).0 then not_found else fault))
unfolding enable
enable_not_found b n h = ground (arith, before_enable-enable_pin n.kind b n.chip)
