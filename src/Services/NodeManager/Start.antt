-- ===== src/Services/NodeManager/Start.antt =====
-- oresat_c3/services/node_manager.py: the construction and the start of the service, the names that
-- stand for addresses, and the callbacks for the UART.
use oresat_c3_software_esi.Base.{
  ℕ, Bool, true, false, Option, none, some, List, [], ◌∷◌, ◌==◌, if◌then◌else◌, Dict, lookup,
  insert,
}
use oresat_c3_software_esi.Subsystems.Opd.System
use oresat_c3_software_esi.Subsystems.Opd.System.{Opd}
use oresat_c3_software_esi.Services.NodeManager.Control.{update_node, succeeded}
use oresat_c3_software_esi.Services.NodeManager.{
  on, not_found, Card, ManagedNode, Counts, NodeManager, c3,
}

-- a `Node` of a card
abbrev pub new_node : Card → ManagedNode
new_node info = record {
  info = info;
  opd_resets = 0;
  last_enable = 0;
  status = not_found;
  is_updating = false;
}

-- the entries of the tables that a card makes
abbrev pub register : ℕ → Card → NodeManager → NodeManager
register name info m = record m {
  managed = insert name (new_node info) m.managed;
  node_id_to_name = insert info.node_id name m.node_id_to_name;
  opd_addr_to_name =
      if info.opd_address == 0
      then m.opd_addr_to_name
      else insert info.opd_address name m.opd_addr_to_name;
}

-- The loop of `__init__`, on the input levels and the transfers that fail of each card's chip.
unfoldable pub add_cards : (ℕ → ℕ) → (ℕ → List Bool) → Dict Card → NodeManager → Bool × NodeManager
add_cards levels bus_errors [] m = (true, m)
add_cards levels bus_errors ((name, info) ∷ rest) m =
    let m1 = register name info m in
    let (r, o) =
      System.add_card name info.processor info.opd_address (levels name) (bus_errors name) m1.opd in
    elim (info.opd_address == 0) [
      | true ↦ add_cards levels bus_errors rest m1
      | false ↦ elim (succeeded r) [
        | true ↦ add_cards levels bus_errors rest (record m1 { opd = o })
        | false ↦ (false, m1)
      ]
    ]

abbrev pub no_counts : Counts
no_counts = record {
  nodes_off = 0;
  nodes_booting = 0;
  nodes_on = 0;
  nodes_with_errors = 0;
  nodes_not_found = 0;
  nodes_dead = 0;
}

-- the name "Invalid", which no node has
abbrev pub invalid : ℕ
invalid = 255

-- `__init__`; it raises `KeyError` where no card is the flight computer's own.
unfoldable pub new : (ℕ → ℕ) → (ℕ → List Bool) → Opd → Dict Card → Bool × NodeManager
unfolding add_cards
new levels bus_errors opd cards =
    let (went, m) = add_cards levels bus_errors cards (record {
      managed = [];
      opd = opd;
      loops = 0;
      counts = no_counts;
      node_id_to_name = [];
      opd_addr_to_name = (0, invalid) ∷ [];
    }) in
    elim (lookup c3 m.managed) [
      | none ↦ (false, m)
      | some _ ↦ (went, update_node c3 (λ n. record n { status = on }) m)
    ]

-- `on_start`
unfoldable pub on_start : NodeManager → Bool × NodeManager
on_start m = let (r, o) = System.enable m.opd in (succeeded r, record m { loops = 0; opd = o })

-- a method that is given the OPD address in place of the name
abbrev pub by_address :
    (ℕ → NodeManager → Bool × NodeManager) → ℕ → NodeManager → Bool × NodeManager
by_address method address m = elim (lookup address m.opd_addr_to_name) [
  | none ↦ (false, m)
  | some name ↦ method name m
]

-- the address that `_get_uart_node_select` returns, none where it raises
abbrev pub uart_address : System.Result (Option ℕ) → Dict ManagedNode → Option ℕ
uart_address (System.err _) managed = none
uart_address (System.ok none) managed = none
uart_address (System.ok (some name)) managed = elim (lookup name managed) [
  | none ↦ none
  | some n ↦ some n.info.opd_address
]

-- `_get_uart_node_select`, which reads the property once to test it and once for its value
unfoldable pub get_uart_node_select : NodeManager → Option ℕ × NodeManager
get_uart_node_select m =
    let (r, o) = System.get_uart_node m.opd in
    let (r', o') = System.get_uart_node o in
    elim r [
      | System.err _ ↦ (none, record m { opd = o })
      | System.ok first ↦ elim first [
        | none ↦ (some 0, record m { opd = o })
        | some _ ↦ (uart_address r' m.managed, record m { opd = o' })
      ]
    ]

-- `_set_uart_node_select`
unfoldable pub set_uart_node_select : ℕ → NodeManager → Bool × NodeManager
set_uart_node_select v m =
    let (r0, o0) = System.set_uart_node none m.opd in
    elim (v == 0) [
      | true ↦ (succeeded r0, record m { opd = o0 })
      | false ↦ elim (lookup v m.opd_addr_to_name) [
        | none ↦ (true, m)
        | some name ↦
            let (r, o) = System.set_uart_node (some name) m.opd in
            (succeeded r, record m { opd = o })
      ]
    ]
