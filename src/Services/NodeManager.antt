-- ===== src/Services/NodeManager.antt =====
-- oresat_c3/services/node_manager.py: the data of the node manager and how it determines the state
-- of a node. Times are in milliseconds, the timeouts of the source in seconds. The names of nodes
-- are numbers, `c3` is the name of the flight computer's own entry.
pub mod Monitor
pub mod Control
pub mod Resets
pub mod Supervised
pub mod Counting
pub mod Start
mod Tests
use oresat_c3_software_esi.Base.{
  ℕ, ◌+◌, ◌*◌, Bool, true, false, not, ◌&&◌, ◌||◌, Option, none, some, List, ltb, leb, ◌==◌,
  if◌then◌else◌, Dict,
}
use oresat_c3_software_esi.Subsystems.Opd.Node
use oresat_c3_software_esi.Subsystems.Opd.Node.{OpdNodeState, stm32}
use oresat_c3_software_esi.Subsystems.Opd.Sband
use oresat_c3_software_esi.Subsystems.Opd.Sband.{AnyNode, card, sband}
use oresat_c3_software_esi.Subsystems.Opd.System.{Opd, OpdState, Processor, stm32_card, mcxn_card}

pub data NodeState : Type 0 where
  off boot on error not_found bootloader updating dead : NodeState

-- `NodeState.value`
abbrev pub value : NodeState → ℕ
value off = 0
value boot = 1
value on = 2
value error = 3
value not_found = 4
value bootloader = 5
value updating = 6
value dead = 255

abbrev pub is : NodeState → NodeState → Bool
is a b = value a == value b

-- the fields of a `Card` of oresat_configs that the manager reads
pub record Card : Type 0 where
  pub node_id : ℕ
  pub opd_address : ℕ
  pub processor : Processor
  pub child : Option ℕ
  pub opd_always_on : Bool

pub record ManagedNode : Type 0 where
  pub info : Card
  pub opd_resets : ℕ
  pub last_enable : ℕ
  pub status : NodeState
  pub is_updating : Bool

pub record Counts : Type 0 where
  pub nodes_off : ℕ
  pub nodes_booting : ℕ
  pub nodes_on : ℕ
  pub nodes_with_errors : ℕ
  pub nodes_not_found : ℕ
  pub nodes_dead : ℕ

-- `managed` is `_data`; `loops` is `_loops + 1`, since `_loops` starts at -1.
pub record NodeManager : Type 0 where
  pub managed : Dict ManagedNode
  pub opd : Opd
  pub loops : ℕ
  pub counts : Counts
  pub node_id_to_name : Dict ℕ
  pub opd_addr_to_name : Dict ℕ

-- What is read while a pass looks at one node: `monotonic()` for the heartbeat, then for the boot
-- timeout, and when the node is enabled or reset; its last heartbeat; the mode and the network.
pub record Env : Type 0 where
  pub mono : ℕ
  pub mono_then : ℕ
  pub mono_enable : ℕ
  pub last_hb : ℕ
  pub flight_mode : Bool
  pub network_up : Bool

abbrev pub c3 : ℕ
c3 = 0

abbrev pub max_co_resets : ℕ
max_co_resets = 3

abbrev pub reset_timeout : ℕ
reset_timeout = 5000

abbrev pub hb_timeout : ℕ
hb_timeout = 5000

abbrev pub boot_timeout : Processor → ℕ
boot_timeout stm32_card = 10000
boot_timeout mcxn_card = 10000
boot_timeout _ = 90000

-- `is_booting`: no heartbeat within the timeout
abbrev pub is_booting : Env → ℕ → Bool
is_booting env last_hb = ltb (last_hb + reset_timeout) env.mono

unfoldable pub check_co_nodes_state : Env → ManagedNode → ℕ → NodeState
check_co_nodes_state env co last_hb =
    if co.is_updating
    then updating
    else if is co.status dead
    then (if is_booting env last_hb then on else dead)
    else if ltb env.mono_then (co.last_enable + boot_timeout co.info.processor)
    then (if is_booting env last_hb then boot else on)
    else if is co.status error
    then error
    else if env.flight_mode && env.network_up && is_booting env last_hb
    then error
    else on

-- `_get_nodes_state` for a node that is not on the OPD; none where it raises `ValueError`
unfoldable pub off_opd_state : Env → ManagedNode → Option ℕ → Option NodeState
off_opd_state env co last_hb = if co.is_updating then some updating else elim last_hb [
  | none ↦ none
  | some hb ↦ some (if ltb (hb + hb_timeout) env.mono then off else on)
]

-- `isinstance(opd, OpdStm32Node)`
abbrev pub is_stm32 : AnyNode → Bool
is_stm32 (card n) = elim n.kind [ stm32 ↦ true | _ ↦ false ]
is_stm32 (sband s) = false

-- `isinstance(opd, OpdStm32Node) and opd.in_bootloader_mode`
unfoldable pub is_bootloader : AnyNode → Bool × AnyNode
is_bootloader (card n) =
    let (b, n') = Node.in_bootloader_mode n in
    elim (is_stm32 (card n)) [ true ↦ (b, card n') | false ↦ (false, card n) ]
is_bootloader (sband s) = (false, sband s)

-- for a CANopen node; none where it raises `ValueError`
abbrev pub co_state : Env → ManagedNode → Option ℕ → Option NodeState
co_state env co none = none
co_state env co (some hb) = some (check_co_nodes_state env co hb)

unfoldable pub enabled_state : Env → ManagedNode → Option ℕ → AnyNode → Option NodeState × AnyNode
enabled_state env co last_hb o =
    let (in_bootloader, o') = is_bootloader o in
    (
      if in_bootloader
          then some bootloader
          else if not (co.info.node_id == 0)
          then co_state env co last_hb
          else some on,
      o',
    )

-- `OpdNodeState.value`
abbrev pub opd_value : OpdNodeState → ℕ
opd_value OpdNodeState.disabled = 0
opd_value OpdNodeState.enabled = 1
opd_value OpdNodeState.fault = 2
opd_value OpdNodeState.not_found = 255
opd_value OpdNodeState.dead = 3

-- Each comparison with `opd.status` reads the property again.
unfoldable pub card_state : Env → ManagedNode → Option ℕ → AnyNode → Option NodeState × AnyNode
card_state env co last_hb o =
    let (s1, o1) = Sband.status o in
    let (s2, o2) = Sband.status o1 in
    let (s3, o3) = Sband.status o2 in
    let (s4, o4) = Sband.status o3 in
    if opd_value s1 == 2
    then (some error, o1)
    else if opd_value s2 == 255
    then (some not_found, o2)
    else if opd_value s3 == 0
    then (some off, o3)
    else if opd_value s4 == 1
    then enabled_state env co last_hb o4
    else (some co.status, o4)

-- `_get_nodes_state` for a node on the OPD
unfoldable pub on_opd_state :
    Env → OpdState → ManagedNode → Option ℕ → AnyNode → Option NodeState × AnyNode
on_opd_state env OpdState.disabled co last_hb o = (some not_found, o)
on_opd_state env OpdState.dead co last_hb o = (some dead, o)
on_opd_state env _ co last_hb o =
    if leb max_co_resets co.opd_resets then (some dead, o) else card_state env co last_hb o
