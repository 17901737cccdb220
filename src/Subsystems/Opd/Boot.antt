-- ===== src/Subsystems/Opd/Boot.antt =====
-- oresat_c3/subsystems/opd.py: the bootloader mode of the STM32 and MCXN cards, whose boot pins
-- have opposite senses.
use oresat_c3_software_esi.Base.{◌≡◌, ◌⊎◌, refl, Bool, true, false, [], arith, testbit}
use oresat_c3_software_esi.Drivers.Max7310.{Chip, output_clear, set_configuration}
use oresat_c3_software_esi.Drivers.Max7310.Pins.{
  output_set-Drives, output_clear-Drives, output_status-testbit,
}
use oresat_c3_software_esi.Drivers.Max7310.Live.{
  IsValid, IsQuiet, output_set-Lives, output_clear-Lives, set_configuration-Lives,
  set_configuration-outputs,
}
use oresat_c3_software_esi.Subsystems.Opd.Node.{
  Node, Kind, plain, stm32, mcxn, octavo, enable_pin, boot_pin, stm32_on_inputs, stm32_off_inputs,
  mcxn_on_inputs, mcxn_off_inputs, boot_level, before_enable, before_disable, enable, disable,
  in_bootloader_mode,
}
use oresat_c3_software_esi.Subsystems.Opd.Power.{before_enable-Lives}

-- The classes with a bootloader mode.
abbrev pub HasBootloader : Kind → Type 0
HasBootloader k = (k ≡ stm32) ⊎ (k ≡ mcxn)

-- The level of the boot pin that stands for a mode.
before_enable-boot_pin :
    (k : Kind) (b : Bool) (c : Chip)
    → HasBootloader k
    → IsValid c
    → IsQuiet c
    → testbit (before_enable k b c).1.output_port boot_pin ≡ boot_level k b
before_enable-boot_pin stm32 true c h v q =
    let (e, q', v') = set_configuration-Lives stm32_on_inputs c v q (omega arith) in
    let c' = (set_configuration stm32_on_inputs c).1 in
    ground
      (arith, e, output_set-Lives boot_pin c' v' q' refl, output_set-Drives boot_pin boot_pin [] c')
before_enable-boot_pin stm32 false c h v q =
    let (e, q', v') = output_clear-Lives boot_pin c v q refl in
    let c' = (output_clear boot_pin [] c).1 in
    ground (
      arith,
      e,
      output_clear-Drives boot_pin boot_pin [] c,
      set_configuration-outputs stm32_off_inputs c',
    )
before_enable-boot_pin mcxn true c h v q =
    let (e, q', v') = output_clear-Lives boot_pin c v q refl in
    let c' = (output_clear boot_pin [] c).1 in
    ground (
      arith,
      e,
      output_clear-Drives boot_pin boot_pin [] c,
      set_configuration-outputs mcxn_on_inputs c',
    )
before_enable-boot_pin mcxn false c h v q =
    let (e, q', v') = set_configuration-Lives mcxn_off_inputs c v q (omega arith) in
    let c' = (set_configuration mcxn_off_inputs c).1 in
    ground
      (arith, e, output_set-Lives boot_pin c' v' q' refl, output_set-Drives boot_pin boot_pin [] c')
before_enable-boot_pin plain b c h v q = ground arith
before_enable-boot_pin octavo b c h v q = ground arith

before_disable-before_enable :
    (k : Kind) (c : Chip) → HasBootloader k → before_disable k c ≡ before_enable k false c
before_disable-before_enable stm32 c h = refl
before_disable-before_enable mcxn c h = refl
before_disable-before_enable plain c h = ground arith
before_disable-before_enable octavo c h = ground arith

in_bootloader_mode-boot_level :
    (n : Node)
    → IsQuiet n.chip
    → (in_bootloader_mode n).0 ≡ boot_level n.kind (testbit n.chip.output_port boot_pin)
unfolding in_bootloader_mode
in_bootloader_mode-boot_level n q = ground (arith, output_status-testbit boot_pin n.chip)

boot_level-boot_level : (k : Kind) (b : Bool) → boot_level k (boot_level k b) ≡ b
boot_level-boot_level mcxn true = refl
boot_level-boot_level mcxn false = refl
boot_level-boot_level plain b = refl
boot_level-boot_level stm32 b = refl
boot_level-boot_level octavo b = refl

-- Setting the enable pin leaves the boot pin.
enable-boot_pin :
    (b : Bool) (n : Node)
    → HasBootloader n.kind
    → IsValid n.chip
    → IsQuiet n.chip
    → let n' = enable b n in
      (n'.kind ≡ n.kind)
      × IsQuiet n'.chip
      × (testbit n'.chip.output_port boot_pin ≡ boot_level n.kind b)
unfolding enable
enable-boot_pin b n h v q =
    let (e, q', v') = before_enable-Lives n.kind b n.chip v q in
    let c' = (before_enable n.kind b n.chip).1 in
    ground (
      arith,
      before_enable-boot_pin n.kind b n.chip h v q,
      output_set-Lives enable_pin c' v' q' refl,
      output_set-Drives boot_pin enable_pin [] c',
    )

disable-boot_pin :
    (n : Node)
    → HasBootloader n.kind
    → IsValid n.chip
    → IsQuiet n.chip
    → let n' = disable n in
      (n'.kind ≡ n.kind)
      × IsQuiet n'.chip
      × (testbit n'.chip.output_port boot_pin ≡ boot_level n.kind false)
unfolding disable
disable-boot_pin n h v q =
    let (e, q', v') = before_enable-Lives n.kind false n.chip v q in
    let c' = (before_enable n.kind false n.chip).1 in
    rw (before_disable-before_enable n.kind n.chip h) (
      ground (
        arith,
        before_enable-boot_pin n.kind false n.chip h v q,
        output_clear-Lives enable_pin c' v' q' refl,
        output_clear-Drives boot_pin enable_pin [] c',
      ))

-- On a quiet bus a card that was enabled in a mode reads back as being in that mode, and after
-- `disable` it is out of the bootloader mode.
pub enable_mode :
    (b : Bool) (n : Node)
    → HasBootloader n.kind
    → IsValid n.chip
    → IsQuiet n.chip
    → ((in_bootloader_mode (enable b n)).0 ≡ b) × ((in_bootloader_mode (disable n)).0 ≡ false)
enable_mode b n h v q = ground (
  arith,
  enable-boot_pin b n h v q,
  disable-boot_pin n h v q,
  in_bootloader_mode-boot_level (enable b n),
  in_bootloader_mode-boot_level (disable n),
  boot_level-boot_level n.kind b,
  boot_level-boot_level n.kind false,
)
