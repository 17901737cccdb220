-- ===== src/Services/NodeManager/Tests.antt =====
-- oresat_c3/services/node_manager.py: runs at fixed values.
use oresat_c3_software_esi.Base.{
  Dict, map, ◌≡◌, refl, arith, ◌≤◌, true, false, none, some, [], ◌∷◌, lookup,
}
use oresat_c3_software_esi.Subsystems.Opd.Sband.{sband, new_sband}
use oresat_c3_software_esi.Subsystems.Opd.System.{Opd, OpdState, add_card, stm32_card, third_party}
use oresat_c3_software_esi.Subsystems.Opd.Control.{IsValid}
use oresat_c3_software_esi.Services.NodeManager.{
  Card, boot, on, error, not_found, dead, is, ManagedNode, NodeManager, Env, on_opd_state,
  check_co_nodes_state,
}
use oresat_c3_software_esi.Services.NodeManager.Start.{new, add_cards}
use oresat_c3_software_esi.Services.NodeManager.Monitor.{supervise, observe, counted}
use oresat_c3_software_esi.Services.NodeManager.Supervised.{supervise-observe}

-- the flight computer, the radio, and a node that is not on the OPD
abbrev own : ManagedNode
own = record {
  info = record {
    node_id = 1;
    opd_address = 0;
    processor = third_party;
    child = none;
    opd_always_on = false;
  };
  opd_resets = 0;
  last_enable = 0;
  status = on;
  is_updating = false;
}

abbrev radio : ManagedNode
radio = record own {
  info = record own.info { node_id = 0; opd_address = 9 };
  opd_resets = 3;
  status = error;
}

abbrev solar : ManagedNode
solar = record own { info = record own.info { node_id = 5; processor = stm32_card } }

abbrev power : Opd
power = record {
  mock = false;
  nodes = (4, sband (new_sband false)) ∷ [];
  status = OpdState.enabled;
  uart_node = none;
  not_enable = false;
  resets = 0;
  fault_readings = [];
}

power-IsValid : IsValid power
power-IsValid k e = ground arith

abbrev manager : NodeManager
manager = record {
  managed = (0, own) ∷ (4, radio) ∷ (7, solar) ∷ [];
  opd = power;
  loops = 0;
  counts = counted [];
  node_id_to_name = [];
  opd_addr_to_name = [];
}

-- a look at a node a minute after its last heartbeat
abbrev silent : Env
silent = record {
  mono = 100000;
  mono_then = 100000;
  mono_enable = 100001;
  last_hb = 40000;
  flight_mode = true;
  network_up = true;
}

silent_node : check_co_nodes_state silent solar 40000 ≡ error
unfolding check_co_nodes_state
silent_node = refl

booting_node : check_co_nodes_state silent (record solar { last_enable = 95000 }) 40000 ≡ boot
unfolding check_co_nodes_state
booting_node = refl

-- A DEAD node that is silent is taken for one that has come back, and one that sends is not.
dead_node_revived : check_co_nodes_state silent (record solar { status = dead }) 40000 ≡ on
unfolding check_co_nodes_state
dead_node_revived = refl

dead_node_ignored : check_co_nodes_state silent (record solar { status = dead }) 99000 ≡ dead
unfolding check_co_nodes_state
dead_node_ignored = refl

supervise-observe_example :
    let found = record manager { managed = (4, record radio { status = dead }) ∷ [] } in
    (after : ManagedNode) × (lookup 4
        (supervise silent 4 (record radio { status = dead }) found).1.managed
      ≡ some after)
    × (after.opd_resets ≤ 3)
    × (is dead dead ≡ true → after.opd_resets ≡ 3)
unfolding observe on_opd_state
supervise-observe_example =
    supervise-observe silent 4 radio power
      (record manager { managed = (4, record radio { status = dead }) ∷ [] }) dead (omega arith)
      refl refl

abbrev cards : Dict Card
cards = (0, own.info) ∷ (4, radio.info) ∷ (7, solar.info) ∷ []

abbrev fresh : Opd
fresh = record power { nodes = []; status = OpdState.disabled }

-- The service starts with every node NOT_FOUND but the flight computer.
new_manager :
    map (λ e. e.1.status) (new (λ _. 0) (λ _. []) fresh cards).1.managed
    ≡ on ∷ not_found ∷ not_found ∷ []
unfolding new add_cards add_card
new_manager = refl
