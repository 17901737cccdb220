-- ===== src/Subsystems/Opd/Uart.antt =====
-- oresat_c3/subsystems/opd.py: the node that is connected to the UART of the flight computer.
use oresat_c3_software_esi.Base.{
  ℕ, ◌≡◌, ◌≢◌, refl, ◌⊎◌, inl, inr, Bool, true, false, Option, none, some, arith, if◌then◌else◌,
  Option-cases,
}
use oresat_c3_software_esi.Base.{Dict, lookup, contains, insert, lookup-insert}
use oresat_c3_software_esi.Subsystems.Opd.Node
use oresat_c3_software_esi.Subsystems.Opd.Node.{OpdNodeState, is_not_found}
use oresat_c3_software_esi.Subsystems.Opd.Reset.{status-stored}
use oresat_c3_software_esi.Subsystems.Opd.Sband
use oresat_c3_software_esi.Subsystems.Opd.Sband.{AnyNode, card, sband, stored_status}
use oresat_c3_software_esi.Subsystems.Opd.System.{
  Opd, ok, err, key_error, uart_disconnect, get_uart_node, set_uart_node,
}
use oresat_c3_software_esi.Subsystems.Opd.Control.{IsValid}

-- The node on the UART, if any, is one of the nodes, and its status is not `NOT_FOUND`.
abbrev pub uart_live : Option ℕ → Dict AnyNode → Bool
uart_live none nodes = true
uart_live (some k) nodes = elim (lookup k nodes) [
  | none ↦ false
  | some n ↦ elim (stored_status n) [ OpdNodeState.not_found ↦ false | _ ↦ true ]
]

any_status-stored : (n : AnyNode) → (Sband.status n).0 ≡ stored_status (Sband.status n).1
unfolding Sband.status
any_status-stored (card n) = status-stored n
any_status-stored (sband s) = refl

-- Connecting the UART does not lose a node.
enable_uart-found :
    (n : AnyNode)
    → stored_status n ≢ OpdNodeState.not_found
    → stored_status (Sband.enable_uart n) ≢ OpdNodeState.not_found
unfolding Sband.enable_uart Node.enable_uart
enable_uart-found (card n) h = ground arith
enable_uart-found (sband s) h = h

-- Disconnecting returns where the node is known, and keeps the names of the nodes.
uart_disconnect_names :
    (j : ℕ) (o : Opd)
    → IsValid o
    → let (r, o') = uart_disconnect o in
      (r ≡ ok tt) × (o'.uart_node ≡ none) × (contains j o'.nodes ≡ contains j o.nodes)
unfolding uart_disconnect
uart_disconnect_names j o v = elim (Option-cases o.uart_node) [
  | inl e ↦ ground (arith, e)
  | inr (k, e) ↦ elim (Option-cases (lookup k o.nodes)) [
    | inl x ↦ ground (arith, v k e, x)
    | inr (n, x) ↦ ground (arith, e, x, lookup-insert j k (Sband.disable_uart n) o.nodes)
  ]
]

-- The getter returns the node that stays connected, or none, and never one that is `NOT_FOUND`.
pub get_uart_node-uart_live :
    (o : Opd)
    → IsValid o
    → let (r, o') = get_uart_node o in
      (r ≡ ok o'.uart_node)
      × (uart_live o'.uart_node o'.nodes ≡ true)
      × ((o'.uart_node ≡ o.uart_node) ⊎ (o'.uart_node ≡ none))
unfolding get_uart_node
get_uart_node-uart_live o v = elim (Option-cases o.uart_node) [
  | inl e ↦ ground (arith, e)
  | inr (k, e) ↦ elim (Option-cases (lookup k o.nodes)) [
    | inl x ↦ ground (arith, v k e, x)
    | inr (n, x) ↦
        let o1 = record o { nodes = insert k (Sband.status n).1 o.nodes } in
        let v1 : IsValid o1 =
          λ j e'. ground (arith, v j e', lookup-insert j k (Sband.status n).1 o.nodes) in
        ground (
          arith,
          e,
          x,
          uart_disconnect_names k o1 v1,
          any_status-stored n,
          lookup-insert k k (Sband.status n).1 o.nodes,
        )
  ]
]

-- The setter, given a name, raises exactly if no node has it. Afterwards that node is connected or
-- none is, and a node that is connected is known and not `NOT_FOUND`.
pub set_uart_node-uart_live :
    (k : ℕ) (o : Opd)
    → IsValid o
    → let (r, o') = set_uart_node (some k) o in
      (r ≡ (if contains k o.nodes then ok tt else err key_error))
      × (uart_live o'.uart_node o'.nodes ≡ true)
      × ((o'.uart_node ≡ some k) ⊎ (o'.uart_node ≡ none))
unfolding set_uart_node
set_uart_node-uart_live k o v =
    let (e, u, c) = uart_disconnect_names k o v in
    let o1 = (uart_disconnect o).1 in
    elim (Option-cases (lookup k o1.nodes)) [
      | inl x ↦ ground (arith, e, u, c, x)
      | inr (n, x) ↦
          let n1 = (Sband.status n).1 in
          let d1 = insert k n1 o1.nodes in
          ground (
            arith,
            e,
            u,
            c,
            x,
            any_status-stored n,
            enable_uart-found n1,
            lookup-insert k k (Sband.enable_uart n1) d1,
          )
    ]
