-- ===== src/Subsystems/Opd/Control.antt =====
-- oresat_c3/subsystems/opd.py: `enable`, `disable`, `scan` and `reset` of the power domain.
use oresat_c3_software_esi.Base.{
  ℕ, suc, ◌≡◌, ◌≢◌, refl, ◌∙◌, inl, inr, Bool, true, false, none, some, [], ◌∷◌, arith,
  if◌then◌else◌, Option-cases,
}
use oresat_c3_software_esi.Base.{Dict, lookup, contains, insert}
use oresat_c3_software_esi.Subsystems.Opd.Node
use oresat_c3_software_esi.Subsystems.Opd.Node.{OpdNodeState, is_not_found}
use oresat_c3_software_esi.Subsystems.Opd.Power.{disable-pin}
use oresat_c3_software_esi.Subsystems.Opd.Probe.{probe-status}
use oresat_c3_software_esi.Subsystems.Opd.Reset.{status-stored}
use oresat_c3_software_esi.Subsystems.Opd.Sband
use oresat_c3_software_esi.Subsystems.Opd.Sband.{AnyNode, card, sband, stored_status}
use oresat_c3_software_esi.Subsystems.Opd.System.{
  Opd, disabled, enabled, fault, dead, ok, err, opd_error, scan_nodes, enable, disable_nodes,
  uart_disconnect, disable, set_not_enable,
}

-- Does the status of a node say that its last probe found it?
abbrev pub is_found : AnyNode → Bool
is_found (card n) = elim n.status [ OpdNodeState.disabled ↦ true | _ ↦ false ]
is_found (sband s) = true

abbrev pub count_found : Dict AnyNode → ℕ
count_found [] = 0
count_found ((name, n) ∷ rest) = if is_found n then suc (count_found rest) else count_found rest

probe-is_found : (r : Bool) (n : AnyNode) → (Sband.probe r n).0 ≡ is_found (Sband.probe r n).1
unfolding Sband.probe
probe-is_found r (card n) = ground (arith, probe-status r n)
probe-is_found r (sband s) = refl

-- `scan` returns the number of nodes whose status, after it, says that they were found.
pub scan_nodes-count_found :
    (r : Bool) (nodes : Dict AnyNode) → (scan_nodes r nodes).0 ≡ count_found (scan_nodes r nodes).1
unfolding scan_nodes
scan_nodes-count_found r [] = refl
scan_nodes-count_found r ((name, n) ∷ rest) =
    ground (arith, probe-is_found r n, scan_nodes-count_found r rest)

-- Both loops keep the names.
pub contains-scan_nodes :
    (k : ℕ) (r : Bool) (nodes : Dict AnyNode) → contains k (scan_nodes r nodes).1 ≡ contains k nodes
unfolding scan_nodes
contains-scan_nodes k r [] = refl
contains-scan_nodes k r ((name, n) ∷ rest) = ground (arith, contains-scan_nodes k r rest)

pub contains-disable_nodes :
    (k : ℕ) (nodes : Dict AnyNode) → contains k (disable_nodes nodes) ≡ contains k nodes
unfolding disable_nodes
contains-disable_nodes k [] = refl
contains-disable_nodes k ((name, n) ∷ rest) = ground (arith, contains-disable_nodes k rest)

-- No node's status is `ENABLED`.
abbrev pub AllOff : Dict AnyNode → Type 0
AllOff [] = Unit
AllOff ((name, n) ∷ rest) = (stored_status n ≢ OpdNodeState.enabled) × AllOff rest

disable_off :
    (n : AnyNode)
    → let (s, n') = Sband.status n in
      stored_status (if is_not_found s then n' else Sband.disable n') ≢ OpdNodeState.enabled
unfolding Sband.status Sband.disable
disable_off (card n) = ground (arith, status-stored n, disable-pin (Node.status n).1)
disable_off (sband s) = ground arith

disable_nodes-AllOff : (nodes : Dict AnyNode) → AllOff (disable_nodes nodes)
unfolding disable_nodes
disable_nodes-AllOff [] = tt
disable_nodes-AllOff ((name, n) ∷ rest) = (disable_off n, disable_nodes-AllOff rest)

-- The node that is connected to the UART is one of the nodes.
abbrev pub IsValid : Opd → Type 0
IsValid o = (k : ℕ) → o.uart_node ≡ some k → contains k o.nodes ≡ true

AllOff-insert :
    (k : ℕ) (n : AnyNode) (nodes : Dict AnyNode)
    → stored_status n ≢ OpdNodeState.enabled
    → AllOff nodes
    → AllOff (insert k n nodes)
AllOff-insert k n [] off h = (off, tt)
AllOff-insert k n (e ∷ rest) off h = ground (arith, AllOff-insert k n rest off h.1)

AllOff-lookup :
    (k : ℕ) (n : AnyNode) (nodes : Dict AnyNode)
    → AllOff nodes
    → lookup k nodes ≡ some n
    → stored_status n ≢ OpdNodeState.enabled
AllOff-lookup k n [] h e = cc
AllOff-lookup k n (x ∷ rest) h e = ground (arith, AllOff-lookup k n rest h.1)

disable_uart-off :
    (n : AnyNode)
    → stored_status n ≢ OpdNodeState.enabled
    → stored_status (Sband.disable_uart n) ≢ OpdNodeState.enabled
unfolding Sband.disable_uart Node.disable_uart
disable_uart-off (card n) off = ground arith
disable_uart-off (sband s) off = off

-- With its node known, the UART is disconnected without an error, and no node comes on.
uart_disconnect_ok :
    (o : Opd)
    → IsValid o
    → AllOff o.nodes
    → let (r, o') = uart_disconnect o in
      (r ≡ ok tt) × AllOff o'.nodes × (o' ≡ record o { nodes = o'.nodes; uart_node = none })
unfolding uart_disconnect
uart_disconnect_ok o v h = elim (Option-cases o.uart_node) [
  | inl e ↦ ground (arith, e)
  | inr (k, e) ↦ elim (Option-cases (lookup k o.nodes)) [
    | inl x ↦ ground (arith, v k e, x)
    | inr (n, x) ↦ ground (
      arith,
      e,
      x,
      AllOff-insert k (Sband.disable_uart n) o.nodes
          (disable_uart-off n (AllOff-lookup k n o.nodes h x)) h,
    )
  ]
]

-- `disable` returns, with every node off, the enable line of real hardware high, and the UART
-- disconnected; it raises nothing where the UART's node is known.
pub domain_disable_ok :
    (o : Opd)
    → IsValid o
    → let (r, o') = disable o in
      (r ≡ ok tt)
      × AllOff o'.nodes
      × (o' ≡ record (set_not_enable true o) {
        nodes = o'.nodes;
        status = disabled;
        uart_node = none;
        resets = 0;
      })
unfolding disable
domain_disable_ok o v =
    let o1 = record o { nodes = disable_nodes o.nodes } in
    let v1 : IsValid o1 = λ k e. contains-disable_nodes k o.nodes ∙ v k e in
    ground (arith, uart_disconnect_ok o1 v1 (disable_nodes-AllOff o.nodes))

-- `enable`, by the status: a dead domain raises and stays, one that is on stays, and one that is
-- off is switched on, with its enable line low, and scanned with a reset of every node found.
pub enable_cases :
    (o : Opd)
    → enable o ≡ elim o.status [
      | disabled ↦ (
        ok tt,
        record (set_not_enable false o) { nodes = (scan_nodes true o.nodes).1; status = enabled },
      )
      | enabled ↦ (ok tt, o)
      | fault ↦ (ok tt, o)
      | dead ↦ (err opd_error, o)
    ]
unfolding enable
enable_cases o = ground arith
