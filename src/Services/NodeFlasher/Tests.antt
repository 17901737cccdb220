-- ===== src/Services/NodeFlasher/Tests.antt =====
-- oresat_c3/services/node_flasher.py: runs at fixed values.
use oresat_c3_software_esi.Base.{◌≡◌, refl, true, false, none, some, [], ◌∷◌, lookup}
use oresat_c3_software_esi.Subsystems.Opd.System.{OpdState, stm32_card}
use oresat_c3_software_esi.Services.NodeManager.{on, updating, ManagedNode, NodeManager}
use oresat_c3_software_esi.Services.NodeFlasher.{
  Command, pre_operational, stop, clear, download, Env, Flasher, flash, execute_flash,
  wait_flash_status_ok,
}
use oresat_c3_software_esi.Services.NodeFlasher.Order.{flash-planned}
use oresat_c3_software_esi.Services.NodeFlasher.Cleanup.{execute_flash-lookup}

abbrev solar : ManagedNode
solar = record {
  info = record {
    node_id = 5;
    opd_address = 0x1C;
    processor = stm32_card;
    child = none;
    opd_always_on = false;
  };
  opd_resets = 0;
  last_enable = 0;
  status = on;
  is_updating = false;
}

abbrev manager : NodeManager
manager = record {
  managed = (7, solar) ∷ [];
  opd = record {
    mock = true;
    nodes = [];
    status = OpdState.enabled;
    uart_node = none;
    not_enable = false;
    resets = 0;
    fault_readings = [];
  };
  loops = 0;
  counts = record {
    nodes_off = 0;
    nodes_booting = 0;
    nodes_on = 0;
    nodes_with_errors = 0;
    nodes_not_found = 0;
    nodes_dead = 0;
  };
  node_id_to_name = (5, 7) ∷ [];
  opd_addr_to_name = [];
}

-- The second poll after the clear reads 0; the status after the download stays at 3.
abbrev env : Env
env = record {
  is_file = true;
  is_remote = true;
  removes = true;
  has_objects = true;
  failures = [];
  clear_status = some 1 ∷ some 1 ∷ some 0 ∷ [];
  download_status = some 3 ∷ some 3 ∷ [];
  clock = record {
    mono = 100;
    mono_then = 100;
    mono_enable = 900;
    last_hb = 0;
    flight_mode = true;
    network_up = true;
  };
}

abbrev image : Command
image = record {
  node_id = 5;
  filename = 3;
  throttled = true;
  block_transfer = true;
  request_crc = true;
  confirm_image = true;
}

abbrev flasher : Flasher
flasher = record {
  manager = manager;
  queue = image ∷ [];
  sent = [];
  failures = [];
  send_throttled = false;
  removed = [];
}

flash-planned_example :
    (flash env image flasher).1.sent ≡ pre_operational ∷ stop ∷ clear ∷ download true true ∷ []
unfolding wait_flash_status_ok
flash-planned_example = flash-planned env image flasher

execute_flash-lookup_example :
    let t = execute_flash env image flasher in
    (lookup 7 t.manager.managed ≡ some (record solar { status = updating; last_enable = 900 }))
    × (t.removed ≡ 3 ∷ [])
    × (t.send_throttled ≡ false)
    × (t.queue ≡ image ∷ [])
execute_flash-lookup_example =
    execute_flash-lookup env image 7 solar flasher refl refl refl refl refl
