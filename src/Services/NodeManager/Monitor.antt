-- ===== src/Services/NodeManager/Monitor.antt =====
-- oresat_c3/services/node_manager.py: `on_loop`.
use oresat_c3_software_esi.Base.{
  ℕ, suc, ◌+◌, ◌%◌, Bool, true, false, ◌&&◌, ◌||◌, Option, none, some, List, [], ◌∷◌, length, ◌==◌,
  if◌then◌else◌, Dict, lookup, insert,
}
use oresat_c3_software_esi.Subsystems.Opd.Sband
use oresat_c3_software_esi.Subsystems.Opd.Sband.{AnyNode}
use oresat_c3_software_esi.Subsystems.Opd.System.{Opd, OpdState}
use oresat_c3_software_esi.Services.NodeManager.Control.{update_node, update_opd, enable}
use oresat_c3_software_esi.Services.NodeManager.{
  NodeState, off, boot, on, error, not_found, updating, dead, is, ManagedNode, Counts, NodeManager,
  Env, c3, off_opd_state, on_opd_state,
}

-- the state of one node; none where `_get_nodes_state` raises `ValueError` or `self.opd[name]`
-- raises `KeyError`
unfoldable pub observe : Env → ℕ → ManagedNode → Opd → Option NodeState × Opd
observe env name node opd =
    let last_hb = if node.info.node_id == 0 then none else some env.last_hb in
    elim (node.info.opd_address == 0) [
      | true ↦ (off_opd_state env node last_hb, opd)
      | false ↦ elim (lookup name opd.nodes) [
        | none ↦ (none, opd)
        | some o ↦
            let (state, o') = on_opd_state env opd.status node last_hb o in
            (state, record opd { nodes = insert name o' opd.nodes })
      ]
    ]

abbrev pub also : NodeState → Option (List NodeState) → Option (List NodeState)
also state none = none
also state (some states) = some (state ∷ states)

-- The first loop: the states found in the order of the nodes, or none where it raises; the nodes
-- before the raise keep what was written.
unfoldable pub monitor :
    (ℕ → Env) → Dict ManagedNode → Opd → Option (List NodeState) × Dict ManagedNode × Opd
monitor envs [] opd = (some [], [], opd)
monitor envs ((name, node) ∷ rest) opd = elim (name == c3) [
  | true ↦
      let (states, managed, opd') = monitor envs rest opd in (states, (name, node) ∷ managed, opd')
  | false ↦ elim (observe (envs name) name node opd).0 [
    | none ↦ (none, (name, node) ∷ rest, (observe (envs name) name node opd).1)
    | some state ↦
        let (states, managed, opd') = monitor envs rest (observe (envs name) name node opd).1 in
        (also state states, (name, record node { status = state }) ∷ managed, opd')
  ]
]

-- `count[state]`
abbrev pub count : NodeState → List NodeState → ℕ
count state [] = 0
count state (s ∷ states) = let rest = count state states in if is s state then suc rest else rest

abbrev pub counted : List NodeState → Counts
counted states = record {
  nodes_off = count off states;
  nodes_booting = count boot states + count updating states;
  nodes_on = count on states;
  nodes_with_errors = count error states;
  nodes_not_found = count not_found states;
  nodes_dead = count dead states;
}

-- `opd.probe(reset=True)`, where it is due
abbrev pub probe_missing : ℕ → ManagedNode → NodeManager → NodeManager
probe_missing name node m =
    if m.loops % 10 == 1 && is node.status not_found
    then update_opd name (λ o. (Sband.probe true o).1) m
    else m

-- `opd.disable()` of a dead node that is still on
abbrev pub power_off : AnyNode → AnyNode
power_off o = let (running, o') = Sband.is_enabled o in if running then Sband.disable o' else o'

-- the last lines of the second loop
unfoldable pub act_on_status : Env → ℕ → ManagedNode → NodeManager → NodeManager
act_on_status env name node m =
    if is node.status dead
    then update_opd name power_off m
    else if is node.status error
    then update_node name
        (λ n. record n { last_enable = env.mono_enable; opd_resets = suc n.opd_resets })
        (update_opd name (Sband.reset 1) m)
    else if is node.status on || is node.status off
    then update_node name (λ n. record n { opd_resets = 0 }) m
    else m

-- `if node.info.opd_always_on and node.status == NodeState.OFF: self.enable(name)`
abbrev pub keep_on : Env → ℕ → ManagedNode → NodeManager → Bool × NodeManager
keep_on env name node m =
    if node.info.opd_always_on && is node.status off then enable env name false m else (true, m)

-- The body of the second loop, and whether it did not raise
unfoldable pub supervise : Env → ℕ → ManagedNode → NodeManager → Bool × NodeManager
supervise env name node m = elim (lookup name m.opd.nodes) [
  | none ↦ (true, m)
  | some _ ↦
      let (went, m') = keep_on env name node (probe_missing name node m) in
      (went, if went then act_on_status env name node m' else m')
]

unfoldable pub supervise_all : (ℕ → Env) → Dict ManagedNode → NodeManager → Bool × NodeManager
supervise_all envs [] m = (true, m)
supervise_all envs ((name, node) ∷ rest) m =
    let (went, m') = supervise (envs name) name node m in
    elim went [ true ↦ supervise_all envs rest m' | false ↦ (false, m') ]

-- `self.opd.status in [OpdState.DEAD, OpdState.DISABLED]`
abbrev pub is_idle : OpdState → Bool
is_idle OpdState.dead = true
is_idle OpdState.disabled = true
is_idle _ = false

-- after the first loop
unfoldable pub finish_pass : (ℕ → Env) → List NodeState → NodeManager → Bool × NodeManager
finish_pass envs states m =
    let m' = record m { counts = counted states } in
    if is_idle m.opd.status
    then (true, record m' { loops = 0 })
    else supervise_all envs m.managed
        (if count not_found states == length m.managed then record m' { loops = 1 } else m')

unfoldable pub on_loop : (ℕ → Env) → NodeManager → Bool × NodeManager
on_loop envs m =
    let (states, managed, opd) = monitor envs m.managed m.opd in
    let m' = record m { managed = managed; opd = opd; loops = suc m.loops } in
    elim states [ none ↦ (false, m') | some found ↦ finish_pass envs found m' ]
