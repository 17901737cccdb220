-- ===== src/Subsystems/Opd/Sband.antt =====
-- oresat_c3/subsystems/opd.py: class OpdSpr8Node, the S-band radio's controller, which is a GPIO
-- line and no card; and the type of all nodes, with the methods that `Opd` calls on them.
use oresat_c3_software_esi.Base.{ℕ, Bool, true, false}
use oresat_c3_software_esi.Subsystems.Opd.Node
use oresat_c3_software_esi.Subsystems.Opd.Node.{
  OpdNodeState, disabled, enabled, fault, is_not_found, is_enabled_state,
}

-- `line` is the value of `_sband_enable_gpio`, which a mock does not have.
pub record Sband : Type 0 where
  pub mock : Bool
  pub line : Bool
  pub status : OpdNodeState

-- `_sband_enable_gpio.set_value`, where the line exists
abbrev set_line : Bool → Sband → Sband
set_line v s = record s { line = elim s.mock [ true ↦ s.line | false ↦ v ] }

abbrev pub new_sband : Bool → Sband
new_sband mock = record { mock = mock; line = false; status = disabled }

-- `OpdSpr8Node.enable`, `disable` and `reset`, which ends with the line high
unfoldable pub enable_sband : Sband → Sband
enable_sband s = record (set_line true s) { status = enabled }

unfoldable pub disable_sband : Sband → Sband
disable_sband s = record (set_line false s) { status = disabled }

unfoldable pub reset_sband : Sband → Sband
reset_sband s = record (set_line true s) { status = enabled }

pub data AnyNode : Type 0 where
  card : Node.Node → AnyNode
  sband : Sband → AnyNode

-- `OpdSpr8Node.probe` always finds the radio.
unfoldable pub probe : Bool → AnyNode → Bool × AnyNode
probe reset (card n) = let (found, n') = Node.probe reset n in (found, card n')
probe reset (sband s) = (true, sband s)

unfoldable pub enable : Bool → AnyNode → AnyNode
unfolding enable_sband
enable bootloader_mode (card n) = card (Node.enable bootloader_mode n)
enable bootloader_mode (sband s) = sband (enable_sband s)

unfoldable pub disable : AnyNode → AnyNode
unfolding disable_sband
disable (card n) = card (Node.disable n)
disable (sband s) = sband (disable_sband s)

unfoldable pub reset : ℕ → AnyNode → AnyNode
unfolding reset_sband
reset attempts (card n) = card (Node.reset attempts n)
reset attempts (sband s) = sband (reset_sband s)

-- the property `status`
unfoldable pub status : AnyNode → OpdNodeState × AnyNode
status (card n) = let (s, n') = Node.status n in (s, card n')
status (sband s) = (s.status, sband s)

-- the property `is_enabled`
unfoldable pub is_enabled : AnyNode → Bool × AnyNode
is_enabled (card n) = let (on, n') = Node.is_enabled n in (on, card n')
is_enabled (sband s) = (is_enabled_state s.status, sband s)

unfoldable pub enable_uart : AnyNode → AnyNode
enable_uart (card n) = card (Node.enable_uart n)
enable_uart (sband s) = sband s

unfoldable pub disable_uart : AnyNode → AnyNode
disable_uart (card n) = card (Node.disable_uart n)
disable_uart (sband s) = sband s

-- `_status`, as it stands
abbrev pub stored_status : AnyNode → OpdNodeState
stored_status (card n) = n.status
stored_status (sband s) = s.status
