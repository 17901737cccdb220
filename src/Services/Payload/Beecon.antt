-- ===== src/Services/Payload/Beecon.antt =====
-- oresat_c3/services/payload.py: class BeeconHandler, with the objects that it shares with the service:
-- the state of the payload, the delay of the beacon of the satellite and the event of low power.
use oresat_c3_software_esi.Base.{ℕ, Bool, false, not, ◌==◌, if◌then◌else◌}
use oresat_c3_software_esi.Drivers.Max7310.{Chip}
use oresat_c3_software_esi.Subsystems.Opd.Node
use oresat_c3_software_esi.Subsystems.Opd.Node.{Node, plain}

pub record Beecon : Type 0 where
  pub state : ℕ
  pub ore_beacon : ℕ
  pub ore_beacon_default : ℕ
  -- `_pwr_event.is_set()`
  pub pwr_event : Bool
  pub beecon_node : Node
  pub failed : Bool

abbrev pub beecon_addr : ℕ
beecon_addr = 0x10

-- `__init__`
unfoldable pub new : ℕ → ℕ → Bool → Chip → Beecon
new state ore_beacon pwr_event chip =
    let (found, node) = Node.probe false (Node.configure (Node.new plain beecon_addr chip)) in
    record {
      state = state;
      ore_beacon = ore_beacon;
      ore_beacon_default = ore_beacon;
      pwr_event = pwr_event;
      beecon_node = node;
      failed = not found;
    }

-- what a read of `is_enabled` leaves
abbrev pub looked : Beecon → Beecon
looked b = record b { beecon_node = (Node.is_enabled b.beecon_node).1 }

-- `self._ore_beacon.value = self._ore_beacon_default; self._beecon_node.disable()`
abbrev pub turn_off : Beecon → Beecon
turn_off b = record b {
  ore_beacon = b.ore_beacon_default;
  beecon_node = Node.disable b.beecon_node;
}

-- `self._ore_beacon.value = 0; self._beecon_node.enable()`
abbrev pub turn_on : Beecon → Beecon
turn_on b = record b { ore_beacon = 0; beecon_node = Node.enable false b.beecon_node }

unfoldable pub ensure_off : Beecon → Beecon
ensure_off b = if (Node.is_enabled b.beecon_node).0 then turn_off (looked b) else looked b

unfoldable pub ensure_on : Beecon → Beecon
ensure_on b = if (Node.is_enabled b.beecon_node).0 then looked b else turn_on (looked b)

-- `_check_powersave` and `_check_powergood`
unfoldable pub check_powersave : Beecon → Beecon
check_powersave b = record b { state = if b.pwr_event then 2 else b.state }

unfoldable pub check_powergood : Beecon → Beecon
check_powergood b = record b { state = if b.pwr_event then b.state else 1 }

-- `loop`, on the state that it has read
unfoldable pub by_state : ℕ → Beecon → Beecon
unfolding ensure_off ensure_on check_powersave check_powergood
by_state state_val b =
    if state_val == 0
    then ensure_off b
    else if state_val == 1
    then check_powersave (ensure_on b)
    else if state_val == 2
    then check_powergood (ensure_off b)
    else b

unfoldable pub loop : Beecon → Beecon
unfolding by_state
loop b = if b.failed then b else by_state b.state b
