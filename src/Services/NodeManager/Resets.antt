-- ===== src/Services/NodeManager/Resets.antt =====
-- oresat_c3/services/node_manager.py: a node is reset a bounded number of times, and what switching
-- off the power domain does to the nodes.
use oresat_c3_software_esi.Base.{
  ◌≡◌, ◌≢◌, refl, ap, ◌∙◌, arith, ℕ, suc, ◌≤◌, ◌<◌, true, false, Bool-cases, inl, inr, ◌||◌, Option,
  none, some, Option-cases, [], ◌∷◌, ◌==◌, if◌then◌else◌, Dict, lookup, lookup-insert,
}
use mathlib.Core.Path.{subst}
use oresat_c3_software_esi.Subsystems.Opd.Sband
use oresat_c3_software_esi.Subsystems.Opd.Sband.{AnyNode}
use oresat_c3_software_esi.Subsystems.Opd.System.{Opd, OpdState}
use oresat_c3_software_esi.Subsystems.Opd.Control.{IsValid, AllOff, domain_disable_ok}
use oresat_c3_software_esi.Services.NodeManager.Monitor.{observe, is_idle, act_on_status, power_off}
use oresat_c3_software_esi.Services.NodeManager.Control.{
  update_node, update_opd, lose_nodes, lose_node, switch_off, set_opd_status,
}
use oresat_c3_software_esi.Services.NodeManager.{
  NodeState, off, on, error, not_found, dead, is, ManagedNode, NodeManager, Env, off_opd_state,
  on_opd_state, max_co_resets,
}

on_opd_state-error :
    (env : Env) (st : OpdState) (node : ManagedNode) (hb : Option ℕ) (o : AnyNode)
    → (on_opd_state env st node hb o).0 ≡ some error
    → node.opd_resets < max_co_resets
unfolding on_opd_state
on_opd_state-error env OpdState.disabled node hb o h = ground arith
on_opd_state-error env OpdState.dead node hb o h = ground arith
on_opd_state-error env OpdState.enabled node hb o h = ground arith
on_opd_state-error env OpdState.fault node hb o h = ground arith

on_opd_state_gives_up :
    (env : Env) (st : OpdState) (node : ManagedNode) (hb : Option ℕ) (o : AnyNode)
    → is_idle st ≡ false
    → max_co_resets ≤ node.opd_resets
    → (on_opd_state env st node hb o).0 ≡ some dead
unfolding on_opd_state
on_opd_state_gives_up env OpdState.disabled node hb o i r = ground arith
on_opd_state_gives_up env OpdState.dead node hb o i r = ground arith
on_opd_state_gives_up env OpdState.enabled node hb o i r = ground arith
on_opd_state_gives_up env OpdState.fault node hb o i r = ground arith

off_opd_state-error :
    (env : Env) (node : ManagedNode) (hb : Option ℕ) → off_opd_state env node hb ≢ some error
unfolding off_opd_state
off_opd_state-error env node none h = ground arith
off_opd_state-error env node (some t) h = ground arith

pub is-error : (s : NodeState) → is s error ≡ true → s ≡ error
is-error s e = ground arith

pub observe-error :
    (env : Env) (name : ℕ) (node : ManagedNode) (opd : Opd)
    → (observe env name node opd).0 ≡ some error
    → node.opd_resets < max_co_resets
unfolding observe
observe-error env name node opd h =
    let hb = if node.info.node_id == 0 then none else some env.last_hb in
    elim (Bool-cases (node.info.opd_address == 0)) [
      | inl e ↦
          let h' : off_opd_state env node hb ≡ some error = rw (observe, e) at h in
          absurd (off_opd_state-error env node hb h')
      | inr e ↦ elim (Option-cases (lookup name opd.nodes)) [
        | inl q ↦ let h' : none ≡ some error = rw (observe, e, q) at h in ground arith
        | inr (o, q) ↦
            let h' : (on_opd_state env opd.status node hb o).0 ≡ some error =
              rw (observe, e, q) at h in
            on_opd_state-error env opd.status node hb o h'
      ]
    ]

pub update_opd-managed :
    (name : ℕ) (f : AnyNode → AnyNode) (m : NodeManager) → (update_opd name f m).managed ≡ m.managed
update_opd-managed name f m = elim (Option-cases (lookup name m.opd.nodes)) [
  | inl q ↦ rw (update_opd, q) refl
  | inr (o, q) ↦ rw (update_opd, q) refl
]

pub lookup-update_node :
    (name : ℕ) (f : ManagedNode → ManagedNode) (n : ManagedNode) (m : NodeManager)
    → lookup name m.managed ≡ some n
    → lookup name (update_node name f m).managed ≡ some (f n)
lookup-update_node name f n m l =
    rw (update_node, l) (lookup-insert name name (f n) m.managed ∙ ground arith)

-- What a pass leaves of the number of resets of a node that it looked at as `n`.
abbrev pub ResetsKept : ℕ → ManagedNode → NodeManager → Type 0
ResetsKept name n m =
    (after : ManagedNode) × (lookup name m.managed ≡ some after)
    × (after.opd_resets ≤ max_co_resets)
    × (is n.status dead ≡ true → after.opd_resets ≡ n.opd_resets)

pub act_on_status-resets :
    (env : Env) (name : ℕ) (n k : ManagedNode) (m : NodeManager)
    → lookup name m.managed ≡ some k
    → k.opd_resets ≡ n.opd_resets
    → (is n.status error ≡ true → n.opd_resets < max_co_resets)
    → n.opd_resets ≤ max_co_resets
    → ResetsKept name n (act_on_status env name n m)
unfolding act_on_status
act_on_status-resets env name n k m l same e b =
    let failing = update_opd name (Sband.reset 1) m in
    let again : ManagedNode → ManagedNode =
      λ n'. record n' { last_enable = env.mono_enable; opd_resets = suc n'.opd_resets } in
    let clear : ManagedNode → ManagedNode = λ n'. record n' { opd_resets = 0 } in
    elim (Bool-cases (is n.status dead)) [
      | inl d ↦
          rw (act_on_status, d)
            (
              k,
              ap (lookup name) (update_opd-managed name power_off m) ∙ l,
              omega (arith, b, same),
              λ _. same,
            )
      | inr d ↦ elim (Bool-cases (is n.status error)) [
        | inl r ↦
            rw (act_on_status, d, r)
              (
                again k,
                lookup-update_node name again k failing
                    (ap (lookup name) (update_opd-managed name (Sband.reset 1) m) ∙ l),
                omega (arith, e r, same),
                λ h. ground (arith, h, d),
              )
        | inr r ↦ elim (Bool-cases (is n.status on || is n.status off)) [
          | inl w ↦
              rw (act_on_status, d, r, w)
                (
                  clear k,
                  lookup-update_node name clear k m l,
                  omega arith,
                  λ h. ground (arith, h, d),
                )
          | inr w ↦ rw (act_on_status, d, r, w) (k, l, omega (arith, b, same), λ _. same)
        ]
      ]
    ]

-- While the power domain is on or faulty, a node of it that was reset three times is found DEAD.
pub observe_gives_up :
    (env : Env) (name : ℕ) (node : ManagedNode) (opd : Opd) (o : AnyNode)
    → node.info.opd_address ≢ 0
    → lookup name opd.nodes ≡ some o
    → is_idle opd.status ≡ false
    → max_co_resets ≤ node.opd_resets
    → (observe env name node opd).0 ≡ some dead
unfolding observe
observe_gives_up env name node opd o a l i r =
    let hb = if node.info.node_id == 0 then none else some env.last_hb in
    let e : (node.info.opd_address == 0) ≡ false = ground (arith, a) in
    rw (observe, e, l) (on_opd_state_gives_up env opd.status node hb o i r)

lose_node_lost :
    (node n : ManagedNode)
    → some (lose_node node) ≡ some n
    → n.info.opd_address ≢ 0
    → n.status ≡ not_found
lose_node_lost node n h =
    let get : Option ManagedNode → ManagedNode = λ o. elim o [ none ↦ n | some k ↦ k ] in
    let lost : (lose_node node).info.opd_address ≢ 0 → (lose_node node).status ≡ not_found =
      λ a. ground (arith, a) in
    subst (λ k. k.info.opd_address ≢ 0 → k.status ≡ not_found) (ap get h) lost

lookup-lose_nodes :
    (name : ℕ) (managed : Dict ManagedNode) (n : ManagedNode)
    → lookup name (lose_nodes managed) ≡ some n
    → n.info.opd_address ≢ 0
    → n.status ≡ not_found
unfolding lose_nodes
lookup-lose_nodes name [] n h a = ground arith
lookup-lose_nodes name ((x, node) ∷ rest) n h a = elim (Bool-cases (x == name)) [
  | inl e ↦
      let h' : some (lose_node node) ≡ some n = rw (lookup, e) at h in lose_node_lost node n h' a
  | inr e ↦
      let h' : lookup name (lose_nodes rest) ≡ some n = rw (lookup, e) at h in
      lookup-lose_nodes name rest n h' a
]

-- Writing 0 to the status of the power domain, where the node on the UART is one of the nodes,
-- raises nothing; then the domain is DISABLED, no card is left ENABLED, and every node on the OPD is
-- NOT_FOUND.
pub switch_off_ok :
    (env : Env) (m : NodeManager)
    → IsValid m.opd
    → let (went, m') = set_opd_status env 0 m in
      (went ≡ true)
      × (m'.opd.status ≡ OpdState.disabled)
      × AllOff m'.opd.nodes
      × ((name : ℕ) (n : ManagedNode)
          → lookup name m'.managed ≡ some n
          → n.info.opd_address ≢ 0
          → n.status ≡ not_found)
unfolding set_opd_status switch_off
switch_off_ok env m v =
    let (e, all_off, rest) = domain_disable_ok m.opd v in
    rw e (refl, ap (λ o. o.status) rest, all_off, λ name n. lookup-lose_nodes name m.managed n)
