-- ===== src/Services/NodeManager/Control.antt =====
-- oresat_c3/services/node_manager.py: enable, disable, and the callbacks that the object dictionary
-- and the node flasher call. A method returns whether it did not raise, and the manager.
use oresat_c3_software_esi.Base.{
  ℕ, Bool, true, false, not, ◌&&◌, ◌||◌, Option, none, some, [], ◌∷◌, ◌==◌, if◌then◌else◌, Dict,
  lookup, insert, contains,
}
use oresat_c3_software_esi.Subsystems.Opd.Sband
use oresat_c3_software_esi.Subsystems.Opd.Sband.{AnyNode}
use oresat_c3_software_esi.Subsystems.Opd.System
use oresat_c3_software_esi.Subsystems.Opd.System.{Opd, OpdState}
use oresat_c3_software_esi.Services.NodeManager.{
  off, not_found, updating, dead, is, ManagedNode, NodeManager, Env, is_stm32,
}

-- a change of the object `self._data[name]`
abbrev pub update_node : ℕ → (ManagedNode → ManagedNode) → NodeManager → NodeManager
update_node name f m = elim (lookup name m.managed) [
  | none ↦ m
  | some n ↦ record m { managed = insert name (f n) m.managed }
]

abbrev put_card : ℕ → AnyNode → NodeManager → NodeManager
put_card name o m = record m { opd = record m.opd { nodes = insert name o m.opd.nodes } }

-- a change of the object `self.opd[name]`
abbrev pub update_opd : ℕ → (AnyNode → AnyNode) → NodeManager → NodeManager
update_opd name f m = elim (lookup name m.opd.nodes) [ none ↦ m | some o ↦ put_card name (f o) m ]

-- whether `self.opd[node.info.child]` does not raise
abbrev pub child_known : Option ℕ → NodeManager → Bool
child_known none m = true
child_known (some child) m = contains child m.opd.nodes

abbrev pub enable_child : Bool → Option ℕ → NodeManager → NodeManager
enable_child mode none m = m
enable_child mode (some child) m = update_opd child (λ o. Sband.enable (mode && is_stm32 o) o) m

-- only an STM32, and the STM32 child of one, is told the mode
unfoldable pub enable_cards : ℕ → Option ℕ → Bool → AnyNode → NodeManager → NodeManager
enable_cards name child bootloader_mode o m =
    let mode = bootloader_mode && is_stm32 o in
    enable_child mode child (update_opd name (Sband.enable mode) m)

unfoldable pub enable : Env → ℕ → Bool → NodeManager → Bool × NodeManager
enable env name bootloader_mode m = elim (lookup name m.managed) [
  | none ↦ (false, m)
  | some node ↦
      if node.info.opd_address == 0
      then (true, m)
      else if is node.status dead
      then (true, m)
      else if not (is node.status off)
      then (true, m)
      else elim (lookup name m.opd.nodes) [
        | none ↦ (false, m)
        | some o ↦
            if child_known node.info.child m
            then (
              true,
              update_node name (λ n. record n { last_enable = env.mono_enable })
                  (enable_cards name node.info.child bootloader_mode o m),
            )
            else (false, m)
      ]
]

abbrev pub disable_child : Option ℕ → NodeManager → NodeManager
disable_child none m = m
disable_child (some child) m = update_opd child Sband.disable m

-- `self._data[node.info.child]` raises
abbrev pub child_missing : Option ℕ → NodeManager → Bool
child_missing none m = false
child_missing (some child) m = not (contains child m.managed)

unfoldable pub disable : ℕ → NodeManager → Bool × NodeManager
disable name m = elim (lookup name m.managed) [
  | none ↦ (false, m)
  | some node ↦
      if child_missing node.info.child m
      then (false, m)
      else if node.info.opd_address == 0
      then (true, m)
      else if is node.status off || is node.status dead
      then (true, m)
      else if not (child_known node.info.child m)
      then (false, m)
      else (
        contains name m.opd.nodes,
        update_opd name Sband.disable (disable_child node.info.child m),
      )
]

-- `_set_node_status`; a value that no state has is ignored
unfoldable pub set_node_status : Env → ℕ → ℕ → NodeManager → Bool × NodeManager
set_node_status env name v m =
    if v == 2
    then enable env name false m
    else if v == 0
    then disable name m
    else if v == 5
    then enable env name true m
    else (true, m)

abbrev pub succeeded : {A : Type 0} → System.Result A → Bool
succeeded (System.ok _) = true
succeeded (System.err _) = false

abbrev pub lose_node : ManagedNode → ManagedNode
lose_node node =
    if not (node.info.opd_address == 0) && not (is node.status not_found)
    then record node { status = not_found }
    else node

-- the loop after `self.opd.disable()`
unfoldable pub lose_nodes : Dict ManagedNode → Dict ManagedNode
lose_nodes [] = []
lose_nodes ((name, node) ∷ rest) = (name, lose_node node) ∷ lose_nodes rest

abbrev pub restart_timers : ℕ → Dict ManagedNode → Dict ManagedNode
restart_timers mono [] = []
restart_timers mono ((name, node) ∷ rest) =
    (name, record node { last_enable = mono }) ∷ restart_timers mono rest

abbrev pub is_disabled : OpdState → Bool
is_disabled OpdState.disabled = true
is_disabled _ = false

-- `_set_opd_status` with 0
unfoldable pub switch_off : NodeManager → Bool × NodeManager
switch_off m =
    let (r, o) = System.disable m.opd in
    (
      succeeded r,
      record m { opd = o; managed = if succeeded r then lose_nodes m.managed else m.managed },
    )

-- `_set_opd_status` with 1
unfoldable pub switch_on : Env → NodeManager → Bool × NodeManager
switch_on env m =
    let (r, o) = System.enable m.opd in
    (
      succeeded r,
      record m {
        opd = o;
        managed =
            if is_disabled m.opd.status
            then restart_timers env.mono_enable m.managed
            else m.managed;
      },
    )

unfoldable pub set_opd_status : Env → ℕ → NodeManager → Bool × NodeManager
set_opd_status env v m =
    if v == 0 then switch_off m else if v == 1 then switch_on env m else (true, m)

unfoldable pub set_node_updating : Env → ℕ → Bool → NodeManager → NodeManager
set_node_updating env node_id now m = elim (lookup node_id m.node_id_to_name) [
  | none ↦ m
  | some name ↦
      update_node name
        (λ n.
          if now
          then record n { is_updating = true; status = updating }
          else record n { is_updating = false; last_enable = env.mono_enable })
        m
]
