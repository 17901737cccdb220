-- ===== src/Subsystems/Opd/Node.antt =====
-- oresat_c3/subsystems/opd.py: class OpdNode and the card classes derived from it, `OpdStm32Node`,
-- `OpdMcxnNode` and `OpdOctavoNode`. One record stands for all four: `kind` says which class it is,
-- and a method that a class overrides goes by the kind. Logging and delays have no effect here.
use oresat_c3_software_esi.Base.{
  ℕ, zero, suc, Bool, true, false, not, ◌||◌, [], ◌==◌, if◌then◌else◌,
}
use oresat_c3_software_esi.Drivers.Max7310
use oresat_c3_software_esi.Drivers.Max7310.{Chip, Result, ok, err, Action, ◌>>◌, ◌>>=◌}

pub data OpdNodeState : Type 0 where
  disabled enabled fault dead not_found : OpdNodeState

-- The classes of `Opd.add_card` that drive a MAX7310: "none", "stm32", "mcxn" and "octavo".
pub data Kind : Type 0 where
  plain stm32 mcxn octavo : Kind

pub record Node : Type 0 where
  pub kind : Kind
  pub addr : ℕ
  pub chip : Chip
  pub status : OpdNodeState

abbrev pub not_fault_pin : ℕ
not_fault_pin = 2

abbrev pub enable_pin : ℕ
enable_pin = 3

abbrev pub cb_reset_pin : ℕ
cb_reset_pin = 4

abbrev pub boot_pin : ℕ
boot_pin = 5

abbrev pub uart_pin : ℕ
uart_pin = 7

-- `_SYS_BOOT2` of the octavo
abbrev pub sys_boot2 : ℕ
sys_boot2 = 5

-- `_BOOTLOADER_ON_INPUTS` and `_BOOTLOADER_OFF_INPUTS`: bits 0, 1 and 2, and the boot pin's.
abbrev pub stm32_on_inputs : ℕ
stm32_on_inputs = 0b0000_0111

abbrev pub stm32_off_inputs : ℕ
stm32_off_inputs = 0b0010_0111

abbrev pub mcxn_off_inputs : ℕ
mcxn_off_inputs = 0b0000_0111

abbrev pub mcxn_on_inputs : ℕ
mcxn_on_inputs = 0b0010_0111

-- `_inputs`, as `__init__` of each class sets it
abbrev pub inputs : Kind → ℕ
inputs plain = 0b0000_0100
inputs stm32 = stm32_off_inputs
inputs mcxn = mcxn_off_inputs
inputs octavo = 0b0000_0100

abbrev pub is_not_found : OpdNodeState → Bool
is_not_found not_found = true
is_not_found _ = false

abbrev pub is_dead : OpdNodeState → Bool
is_dead dead = true
is_dead _ = false

-- `self._status = a`, or `b` in the handler of `Max7310Error`
abbrev pub tried : {A : Type 0} → Result A → OpdNodeState → OpdNodeState → OpdNodeState
tried (ok _) a b = a
tried (err _) a b = b

-- `__init__`
unfoldable pub new : Kind → ℕ → Chip → Node
new kind addr chip = record { kind = kind; addr = addr; chip = chip; status = not_found }

unfoldable pub configure : Node → Node
configure n =
    let (r, c) = Max7310.configure 0 0 (inputs n.kind) 1 n.chip in
    record n { chip = c; status = tried r disabled fault }

-- the last lines of the `try` in `probe`, for a chip that answered
unfoldable pub probe_reset : Bool → Node → Node
unfolding configure
probe_reset false n = record n { status = disabled }
probe_reset true n =
    let (r, c) = Max7310.reset n.chip in
    elim r [
      | ok _ ↦ record (configure (record n { chip = c })) { status = disabled }
      | err _ ↦ record n { chip = c; status = not_found }
    ]

unfoldable pub probe : Bool → Node → Bool × Node
unfolding configure probe_reset
probe reset n =
    let (valid, c) = Max7310.is_valid n.chip in
    let n' = record n { chip = c } in
    let found = probe_reset reset (if is_not_found n.status then configure n' else n') in
    if is_dead n.status
    then (false, n)
    else if valid
    then (not (is_not_found found.status), found)
    else (false, record n' { status = not_found })

-- `OpdNode.enable`
unfoldable pub enable_base : Node → Node
enable_base n =
    let (r, c) = Max7310.output_set enable_pin [] n.chip in
    if is_not_found n.status then n else record n { chip = c; status = tried r enabled fault }

-- what the cards do before the enable pin is set
abbrev pub before_enable : Kind → Bool → Action (Unit {0})
before_enable plain _ = Max7310.pure tt
before_enable stm32 true =
    Max7310.set_configuration stm32_on_inputs >> Max7310.output_set boot_pin []
before_enable stm32 false =
    Max7310.output_clear boot_pin [] >> Max7310.set_configuration stm32_off_inputs
before_enable mcxn true =
    Max7310.output_clear boot_pin [] >> Max7310.set_configuration mcxn_on_inputs
before_enable mcxn false =
    Max7310.set_configuration mcxn_off_inputs >> Max7310.output_set boot_pin []
before_enable octavo _ = Max7310.output_set sys_boot2 []

-- `enable` of each class; only the stm32 and the mcxn look at `bootloader_mode`
unfoldable pub enable : Bool → Node → Node
unfolding enable_base
enable bootloader_mode n =
    let (r, c) = before_enable n.kind bootloader_mode n.chip in
    elim r [
      | ok _ ↦ enable_base (record n { chip = c })
      | err _ ↦ record n { chip = c; status = fault }
    ]

-- what the stm32 and the mcxn do first in `disable`, with `Max7310Error` suppressed
abbrev pub before_disable : Kind → Action (Unit {0})
before_disable stm32 =
    Max7310.output_clear boot_pin [] >> Max7310.set_configuration stm32_off_inputs
before_disable mcxn = Max7310.set_configuration mcxn_off_inputs >> Max7310.output_set boot_pin []
before_disable _ = Max7310.pure tt

unfoldable pub disable : Node → Node
disable n =
    let (_, c) = before_disable n.kind n.chip in
    let (r, c') = Max7310.output_clear enable_pin [] c in
    record n { chip = c'; status = tried r disabled fault }

-- after a `Max7310Error` in `is_enabled` or `fault`
abbrev pub faulted : OpdNodeState → OpdNodeState
faulted not_found = not_found
faulted _ = fault

unfoldable pub is_enabled : Node → Bool × Node
is_enabled n =
    let (r, c) = Max7310.output_status enable_pin n.chip in
    elim r [
      | ok on ↦ (on, record n { chip = c })
      | err _ ↦ (false, record n { chip = c; status = faulted n.status })
    ]

-- the property `fault`: two cards have no fault line
unfoldable pub has_fault : Node → Bool × Node
has_fault n =
    let (r, c) = Max7310.input_status not_fault_pin n.chip in
    if n.addr == 0x18 || n.addr == 0x1F then (false, n) else elim r [
      | ok high ↦ (not high, record n { chip = c })
      | err _ ↦ (true, record n { chip = c; status = faulted n.status })
    ]

-- one round of the loop in `reset`
unfoldable pub reset_try : Node → Node
unfolding has_fault
reset_try n =
    let m = Max7310.output_set cb_reset_pin [] >> Max7310.output_clear cb_reset_pin [] in
    let (r, c) = m n.chip in
    elim r [
      | ok _ ↦
          (let (faulty, n') = has_fault (record n { chip = c }) in
            record n' { status = if faulty then fault else enabled })
      | err _ ↦ record n { chip = c; status = fault }
    ]

abbrev pub is_enabled_state : OpdNodeState → Bool
is_enabled_state enabled = true
is_enabled_state _ = false

-- `reset`: every round sets the status, and the loop breaks off where that is `ENABLED`
unfoldable pub reset : ℕ → Node → Node
reset zero n = n
reset (suc attempts) n =
    let n' = reset_try n in
    let rest = reset attempts n' in if is_enabled_state n'.status then n' else rest

-- the property `status`, which looks at the chip first
unfoldable pub status : Node → OpdNodeState × Node
unfolding is_enabled has_fault
status n =
    let (valid, c) = Max7310.is_valid n.chip in
    let n' = record n { chip = c } in
    let (on, n1) = is_enabled n' in
    let (faulty, n2) = has_fault n1 in
    let m =
      if not valid
      then record n' { status = not_found }
      else if not on
      then n1
      else if faulty
      then record n2 { status = fault }
      else n2 in
    (m.status, m)

-- `enable_uart` and `disable_uart`: the plain card has no UART pin
abbrev pub uart_action : Kind → Action (Unit {0}) → Action (Unit {0})
uart_action plain _ = Max7310.pure tt
uart_action _ m = m

unfoldable pub enable_uart : Node → Node
enable_uart n =
    let (r, c) = uart_action n.kind (Max7310.output_set uart_pin []) n.chip in
    record n { chip = c; status = tried r n.status fault }

unfoldable pub disable_uart : Node → Node
disable_uart n =
    let (r, c) = uart_action n.kind (Max7310.output_clear uart_pin []) n.chip in
    record n { chip = c; status = tried r n.status fault }

abbrev pub boot_level : Kind → Bool → Bool
boot_level mcxn high = not high
boot_level _ high = high

-- `is_uart_enabled`, of the classes with a UART pin
unfoldable pub is_uart_enabled : Node → Bool × Node
is_uart_enabled n =
    let (r, c) = Max7310.output_status uart_pin n.chip in
    elim r [
      | ok high ↦ (high, record n { chip = c })
      | err _ ↦ (false, record n { chip = c; status = fault })
    ]

-- `in_bootloader_mode`, of the stm32 and the mcxn
unfoldable pub in_bootloader_mode : Node → Bool × Node
in_bootloader_mode n =
    let (r, c) = Max7310.output_status boot_pin n.chip in
    elim r [
      | ok high ↦ (boot_level n.kind high, record n { chip = c })
      | err _ ↦ (false, record n { chip = c; status = fault })
    ]
