-- ===== src/Subsystems/Opd/System.antt =====
-- oresat_c3/subsystems/opd.py: class Opd, the power domain as a whole. A method is an action on
-- `Opd` that returns or raises, and that keeps what was written before a raise. The names of nodes
-- are numbers. `fault_readings` holds what each coming `get_value` of the request of the nFAULT line
-- gives, none where it raises, and it raises where the list has run out: `check_for_fault` asks for
-- the offset of the nENABLE line, which that request does not have.
use oresat_c3_software_esi.Base.{
  ℕ, zero, suc, Bool, true, false, not, Option, none, some, List, [], ◌∷◌, if◌then◌else◌, Dict,
  lookup, insert,
}
use oresat_c3_software_esi.Drivers.Max7310
use oresat_c3_software_esi.Subsystems.Opd.Node
use oresat_c3_software_esi.Subsystems.Opd.Node.{is_not_found, plain, stm32, mcxn, octavo}
use oresat_c3_software_esi.Subsystems.Opd.Sband
use oresat_c3_software_esi.Subsystems.Opd.Sband.{AnyNode, card, sband}

pub data OpdState : Type 0 where
  disabled enabled fault dead : OpdState

pub record Opd : Type 0 where
  pub mock : Bool
  pub nodes : Dict AnyNode
  pub status : OpdState
  pub uart_node : Option ℕ
  pub not_enable : Bool
  pub resets : ℕ
  pub fault_readings : List (Option Bool)

-- `OpdError`, `KeyError` from a dict, `Max7310Error` from a constructor, and what a GPIO request raises.
pub data Error : Type 0 where
  opd_error key_error max7310_error gpio_error : Error

pub data Result (A : Type 0) : Type 0 where
  ok : A → Result A
  err : Error → Result A

abbrev pub Action : Type 0 → Type 0
Action A = Opd → Result A × Opd

abbrev pub pure : {A : Type 0} → A → Action A
pure a o = (ok a, o)

-- How a method goes on from what its last call did: a raise ends it.
abbrev pub after : {A B : Type 0} → (A → Action B) → Result A × Opd → Result B × Opd
after rest (ok value, o) = rest value o
after rest (err raised, o) = (err raised, o)

infixl 5 ◌>>=◌ ◌>>◌
abbrev pub ◌>>=◌ : {A B : Type 0} → Action A → (A → Action B) → Action B
◌>>=◌ first rest o = after rest (first o)

abbrev pub ◌>>◌ : {B : Type 0} → Action (Unit {0}) → Action B → Action B
m >> k = m >>= λ _. k

-- `Opd.__init__`
abbrev pub new : Bool → List (Option Bool) → Opd
new mock fault_readings = record {
  mock = mock;
  nodes = [];
  status = disabled;
  uart_node = none;
  not_enable = not mock;
  resets = 0;
  fault_readings = fault_readings;
}

-- `info.processor`
pub data Processor : Type 0 where
  none_card stm32_card mcxn_card octavo_card third_party other : Processor

add_chip : Node.Kind → ℕ → Max7310.Result Max7310.Chip → Result AnyNode
add_chip kind addr (Max7310.ok chip) = ok (card (Node.new kind addr chip))
add_chip kind addr (Max7310.err _) = err max7310_error

new_node : Processor → ℕ → Max7310.Result Max7310.Chip → Bool → Result AnyNode
unfolding add_chip
new_node none_card addr chip mock = add_chip plain addr chip
new_node stm32_card addr chip mock = add_chip stm32 addr chip
new_node mcxn_card addr chip mock = add_chip mcxn addr chip
new_node octavo_card addr chip mock = add_chip octavo addr chip
new_node third_party addr chip mock = ok (sband (Sband.new_sband mock))
new_node other addr chip mock = err key_error

-- `add_card`; `input` is the level of the chip's pins
unfoldable pub add_card : ℕ → Processor → ℕ → ℕ → List Bool → Action (Unit {0})
unfolding new_node
add_card name processor addr input bus_errors o =
    elim (new_node processor addr (Max7310.new addr input bus_errors) o.mock) [
      | ok n ↦ (ok tt, record o { nodes = insert name n o.nodes })
      | err e ↦ (err e, o)
    ]

-- the loop of `scan`: the number of nodes found, and the nodes after their probes
unfoldable pub scan_nodes : Bool → Dict AnyNode → ℕ × Dict AnyNode
scan_nodes reset [] = (0, [])
scan_nodes reset ((name, n) ∷ rest) =
    let (found, n') = Sband.probe reset n in
    let (count, rest') = scan_nodes reset rest in
    (if found then suc count else count, (name, n') ∷ rest')

unfoldable pub scan : Bool → Action ℕ
unfolding scan_nodes
scan reset o =
    let (count, nodes) = scan_nodes reset o.nodes in (ok count, record o { nodes = nodes })

-- `_not_enable_gpio.set_value`, where there is a line
abbrev pub set_not_enable : Bool → Opd → Opd
set_not_enable v o = record o { not_enable = if o.mock then o.not_enable else v }

unfoldable pub enable_from : OpdState → Action (Unit {0})
unfolding scan
enable_from dead o = (err opd_error, o)
enable_from enabled o = (ok tt, o)
enable_from fault o = (ok tt, o)
enable_from disabled o =
    (scan true >>= λ _. pure tt) (record (set_not_enable false o) { status = enabled })

unfoldable pub enable : Action (Unit {0})
unfolding enable_from
enable o = enable_from o.status o

-- the loop of `disable`
unfoldable pub disable_nodes : Dict AnyNode → Dict AnyNode
disable_nodes [] = []
disable_nodes ((name, n) ∷ rest) =
    let (s, n') = Sband.status n in
    (name, if is_not_found s then n' else Sband.disable n') ∷ disable_nodes rest

-- `self._nodes[name]`
abbrev pub get_node : ℕ → Action AnyNode
get_node name o = elim (lookup name o.nodes) [ none ↦ (err key_error, o) | some n ↦ (ok n, o) ]

abbrev pub put_node : ℕ → AnyNode → Action (Unit {0})
put_node name n o = (ok tt, record o { nodes = insert name n o.nodes })

unfoldable pub uart_disconnect_from : Option ℕ → Action (Unit {0})
uart_disconnect_from none o = (ok tt, o)
uart_disconnect_from (some name) o =
    (get_node name >>= λ n.
    put_node name (Sband.disable_uart n) >> λ o'. (ok tt, record o' { uart_node = none }))
      o

unfoldable pub uart_disconnect : Action (Unit {0})
unfolding uart_disconnect_from
uart_disconnect o = uart_disconnect_from o.uart_node o

unfoldable pub disable : Action (Unit {0})
unfolding disable_nodes uart_disconnect
disable o =
    (uart_disconnect >> λ o'.
    (ok tt, record (set_not_enable true o') { status = disabled; resets = 0 }))
      (record o { nodes = disable_nodes o.nodes })

-- one `get_value` of the request of the nFAULT line
abbrev pub reading : List (Option Bool) → Option Bool
reading [] = none
reading (value ∷ _) = value

abbrev pub readings_left : List (Option Bool) → List (Option Bool)
readings_left [] = []
readings_left (_ ∷ rs) = rs

unfoldable pub check_for_fault : Action Bool
check_for_fault o = if o.mock then (ok false, o) else (
  elim (reading o.fault_readings) [ none ↦ err gpio_error | some high ↦ ok (not high) ],
  record o { fault_readings = readings_left o.fault_readings },
)

abbrev pub is_fault : OpdState → Bool
is_fault fault = true
is_fault _ = false

abbrev pub set_status : OpdState → Action (Unit {0})
set_status s o = (ok tt, record o { status = s })

-- the body of the loop in `reset`
unfoldable pub reset_try : Action (Unit {0})
unfolding disable enable check_for_fault
reset_try =
    disable
    >> enable
    >> (check_for_fault >>= λ faulty. if faulty then set_status fault else pure tt)

-- the loop: `while self._status == FAULT and reset < tries`, on the tries left
unfoldable pub reset_loop : ℕ → Action (Unit {0})
reset_loop zero o = (ok tt, o)
reset_loop (suc tries) o = elim (is_fault o.status) [
  | true ↦ (reset_try >>= λ _. reset_loop tries) o
  | false ↦ (ok tt, o)
]

-- what `reset` does after the loop
unfoldable pub give_up : Action (Unit {0})
unfolding disable
give_up o = elim (is_fault o.status) [ true ↦ (disable >> set_status dead) o | false ↦ (ok tt, o) ]

unfoldable pub reset : ℕ → Action (Unit {0})
unfolding reset_loop give_up
reset tries = reset_loop tries >> give_up

-- the property `uart_node`
unfoldable pub get_uart_node : Action (Option ℕ)
unfolding uart_disconnect
get_uart_node o = elim o.uart_node [
  | none ↦ (ok none, o)
  | some name ↦
      (get_node name >>= λ n.
      put_node name (Sband.status n).1
      >> (if is_not_found (Sband.status n).0 then uart_disconnect else pure tt)
      >> λ o'. (ok o'.uart_node, o'))
        o
]

-- the setter of `uart_node`
unfoldable pub set_uart_node : Option ℕ → Action (Unit {0})
unfolding uart_disconnect
set_uart_node none = uart_disconnect
set_uart_node (some name) =
    uart_disconnect
    >> (get_node name >>= λ n.
        put_node name (Sband.status n).1
        >> (if is_not_found (Sband.status n).0
            then pure tt
            else put_node name (Sband.enable_uart (Sband.status n).1) >> λ o'.
                (ok tt, record o' { uart_node = some name })))
