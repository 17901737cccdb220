-- ===== src/Services/Edl/State.antt =====
-- oresat_c3/services/edl.py: the state of EdlService, and what its methods read of the rest.
use oresat_c3_software_esi.Base.{ℕ, Bool, Option, List, Dict}
use oresat_c3_software_esi.Protocols.EdlCommand.Struct.{Value}
use oresat_c3_software_esi.Protocols.Sdls.{PrimaryHeader, TransferFrame}
use oresat_c3_software_esi.Services.NodeManager.{NodeManager}

pub data Effect : Type 0 where
  soft_reset hard_reset factory_reset send_sync send_time_tpdo send_beacon : Effect
  sdo_write : List Value → Effect
  set_rtc_time : Value → Effect
  set_system_time : Effect

-- `_handle_pdu`: the handler that `get_packet_destination` names
pub data PacketDestination : Type 0 where
  dest_handler source_handler unknown : PacketDestination

-- The packages that the service calls: the digest of `hmac`, the frames and PDUs of spacepackets.
pub record Packages (Pdu : Type 0) : Type 0 where
  pub digest : List ℕ → List ℕ → List ℕ
  pub pack_header : PrimaryHeader → List ℕ
  pub tfdf_header : List ℕ
  pub pdu_pack : Pdu → Option (List ℕ)
  pub pdu_from_raw : List ℕ → Option Pdu
  pub packet_destination : Pdu → PacketDestination

-- `keys` has the crypto keys by their number; `manager` is the node manager, whose OPD the commands
-- reach.
pub record EdlService (Pdu : Type 0) : Type 0 where
  pub flight_mode : Bool
  pub sequence_count : ℕ
  pub rejected_count : ℕ
  pub last_edl : ℕ
  pub tx_enable : Bool
  pub last_tx_enable : ℕ
  pub active_key : ℕ
  pub keys : Dict (List ℕ)
  pub manager : NodeManager
  pub cmd_uplink : List TransferFrame
  pub file_uplink : List TransferFrame
  pub cmd_downlink : List TransferFrame
  pub file_downlink : List TransferFrame
  pub cfdp_tm : List Pdu
  pub cfdp_src : List Pdu
  pub cfdp_dest : List Pdu
  pub flash_queue : List (List Value)
  pub effects : List Effect

-- What a write to the flight computer's own object dictionary may reach of the service, by the object or by the
-- callback that it has.
pub record Objects : Type 0 where
  pub flight_mode : Bool
  pub sequence_count : ℕ
  pub rejected_count : ℕ
  pub last_edl : ℕ
  pub tx_enable : Bool
  pub last_tx_enable : ℕ
  pub active_key : ℕ
  pub keys : Dict (List ℕ)
  pub manager : NodeManager

-- What a command finds: the time in milliseconds, the NMT state of the node, the abort code of an SDO
-- transfer, 0 if it went through, with the bytes that were read, and what the calls of the clock, the
-- beacon and the flasher returned. None where the call raises something else. `od_written` is what
-- `_on_sdo_write` of the node makes of the objects.
pub record Env : Type 0 where
  pub time : ℕ
  pub node_state : Option ℕ
  pub sdo_written : Option ℕ
  pub od_written : List Value → Objects → Objects
  pub sdo_read : Option (ℕ × List ℕ)
  pub rtc_set : Bool
  pub system_time_set : Bool
  pub beacon_sent : Bool
  pub flash_queued : Bool
