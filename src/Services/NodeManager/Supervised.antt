-- ===== src/Services/NodeManager/Supervised.antt =====
-- oresat_c3/services/node_manager.py: how often a pass resets a node.
use oresat_c3_software_esi.Base.{
  ◌≡◌, refl, ap, ◌∙◌, arith, ℕ, ◌≤◌, ◌<◌, true, false, not, Bool, ◌%◌, ◌&&◌, Bool-cases, inl, inr,
  Option, none, some, Option-cases, ◌==◌, if◌then◌else◌, lookup,
}
use oresat_c3_software_esi.Subsystems.Opd.Sband
use oresat_c3_software_esi.Subsystems.Opd.Sband.{AnyNode}
use oresat_c3_software_esi.Subsystems.Opd.System.{Opd}
use oresat_c3_software_esi.Services.NodeManager.Monitor.{supervise, keep_on, probe_missing, observe}
use oresat_c3_software_esi.Services.NodeManager.Control.{
  enable, enable_child, enable_cards, child_known, update_node, update_opd,
}
use oresat_c3_software_esi.Services.NodeManager.{
  is_stm32, NodeState, off, error, not_found, dead, is, ManagedNode, NodeManager, Env,
  max_co_resets,
}
use oresat_c3_software_esi.Services.NodeManager.Resets.{
  ResetsKept, act_on_status-resets, observe-error, is-error, update_opd-managed, lookup-update_node,
}

-- The node that `name` has in the manager was reset as often as `n`.
abbrev SameResets : ℕ → ManagedNode → NodeManager → Type 0
SameResets name n m =
    (k : ManagedNode) × (lookup name m.managed ≡ some k) × (k.opd_resets ≡ n.opd_resets)

enable_child-managed :
    (mode : Bool) (child : Option ℕ) (m : NodeManager)
    → (enable_child mode child m).managed ≡ m.managed
enable_child-managed mode none m = refl
enable_child-managed mode (some child) m =
    update_opd-managed child (λ o. Sband.enable (mode && is_stm32 o) o) m

enable_cards-managed :
    (name : ℕ) (child : Option ℕ) (b : Bool) (o : AnyNode) (m : NodeManager)
    → (enable_cards name child b o m).managed ≡ m.managed
unfolding enable_cards
enable_cards-managed name child b o m =
    let mode = b && is_stm32 o in
    enable_child-managed mode child (update_opd name (Sband.enable mode) m)
    ∙ update_opd-managed name (Sband.enable mode) m

enable-SameResets :
    (env : Env) (name : ℕ) (b : Bool) (n : ManagedNode) (m : NodeManager)
    → lookup name m.managed ≡ some n
    → SameResets name n (enable env name b m).1
unfolding enable
enable-SameResets env name b n m l =
    let now : ManagedNode → ManagedNode = λ k. record k { last_enable = env.mono_enable } in
    elim (Option-cases (lookup name m.opd.nodes)) [
      | inl q ↦ rw (enable, l, q) (guarded (false, m) kept)
      | inr (o, q) ↦
          let cards = enable_cards name n.info.child b o m in
          let on : SameResets name n (update_node name now cards) = (
            now n,
            lookup-update_node name now n cards
                (ap (lookup name) (enable_cards-managed name n.info.child b o m) ∙ l),
            refl,
          ) in
          rw (enable, l, q)
            (guarded
              (if child_known n.info.child m
                then (true, update_node name now cards)
                else (false, m))
              (either (child_known n.info.child m) (true, update_node name now cards) (false, m) on
                kept))
    ]
  where
    kept : SameResets name n m
    kept = (n, l, refl)

    either :
        (c : Bool) (p q : Bool × NodeManager)
        → SameResets name n p.1
        → SameResets name n q.1
        → SameResets name n (if c then p else q).1
    either true p q h k = h
    either false p q h k = k

    -- behind the three early returns
    guarded :
        (rest : Bool × NodeManager)
        → SameResets name n rest.1
        → SameResets name n
            (if n.info.opd_address == 0
              then (true, m)
              else if is n.status dead
              then (true, m)
              else if not (is n.status off)
              then (true, m)
              else rest).1
    guarded rest h =
        let r1 = if not (is n.status off) then (true, m) else rest in
        let r2 = if is n.status dead then (true, m) else r1 in
        either (n.info.opd_address == 0) (true, m) r2 kept
          (either (is n.status dead) (true, m) r1 kept
            (either (not (is n.status off)) (true, m) rest kept h))

keep_on-SameResets :
    (env : Env) (name : ℕ) (node n : ManagedNode) (m : NodeManager)
    → lookup name m.managed ≡ some n
    → SameResets name n (keep_on env name node m).1
keep_on-SameResets env name node n m l = pick (node.info.opd_always_on && is node.status off)
  where
    pick : (b : Bool) → SameResets name n (if b then enable env name false m else (true, m)).1
    pick true = enable-SameResets env name false n m l
    pick false = (n, l, refl)

probe_missing-managed :
    (name : ℕ) (node : ManagedNode) (m : NodeManager)
    → (probe_missing name node m).managed ≡ m.managed
probe_missing-managed name node m = pick (m.loops % 10 == 1 && is node.status not_found)
  where
    pick :
        (b : Bool)
        → (if b then update_opd name (λ o. (Sband.probe true o).1) m else m).managed ≡ m.managed
    pick true = update_opd-managed name (λ o. (Sband.probe true o).1) m
    pick false = refl

supervise-resets :
    (env : Env) (name : ℕ) (n : ManagedNode) (m : NodeManager)
    → lookup name m.managed ≡ some n
    → (is n.status error ≡ true → n.opd_resets < max_co_resets)
    → n.opd_resets ≤ max_co_resets
    → ResetsKept name n (supervise env name n m).1
unfolding supervise
supervise-resets env name n m l e b =
    let m1 = probe_missing name n m in
    let (k, l1, same) =
      keep_on-SameResets env name n n m1 (ap (lookup name) (probe_missing-managed name n m) ∙ l) in
    let m2 = (keep_on env name n m1).1 in
    elim (Option-cases (lookup name m.opd.nodes)) [
      | inl q ↦ rw (supervise, q) (n, l, b, λ _. refl)
      | inr (o, q) ↦ elim (Bool-cases (keep_on env name n m1).0) [
        | inl w ↦ rw (supervise, q, w) (act_on_status-resets env name n k m2 l1 same e b)
        | inr w ↦ rw (supervise, q, w) (k, l1, omega (arith, b, same), λ _. same)
      ]
    ]

-- Where a node has been reset at most three times and the first loop finds it in the state `s`, the body
-- of the second loop leaves it reset at most three times, also where it raises, and does not change
-- the number if `s` is DEAD.
pub supervise-observe :
    (env : Env) (name : ℕ) (node : ManagedNode) (opd : Opd) (m : NodeManager) (s : NodeState)
    → node.opd_resets ≤ max_co_resets
    → (observe env name node opd).0 ≡ some s
    → lookup name m.managed ≡ some (record node { status = s })
    → (after : ManagedNode) × (lookup name
          (supervise env name (record node { status = s }) m).1.managed
        ≡ some after)
      × (after.opd_resets ≤ max_co_resets)
      × (is s dead ≡ true → after.opd_resets ≡ node.opd_resets)
supervise-observe env name node opd m s b h l =
    supervise-resets env name (record node { status = s }) m l
      (λ e. observe-error env name node opd (h ∙ ap some (is-error s e))) b
