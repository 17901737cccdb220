-- ===== src/Services/Edl/Tests.antt =====
-- oresat_c3/services/edl.py: runs at fixed values.
use oresat_c3_software_esi.Base.{
  ◌≡◌, refl, arith, ℕ, Bool, true, false, Option, none, some, List, [], ◌∷◌, ◌++◌, same,
}
use oresat_c3_software_esi.Protocols.EdlCommand.Struct.{bool, int, err, struct_error}
use oresat_c3_software_esi.Protocols.EdlCommand.Codes.{ping, code_of, opd_sysenable}
use oresat_c3_software_esi.Protocols.EdlCommand.{
  EdlCommandRequest, edl_commands, pack_request, pack_layout, unpack_request, unpack_layout,
  pack_response,
}
use oresat_c3_software_esi.Protocols.EdlCommand.Struct.{ok, pack_fields, pack_field, unpack_fields}
use oresat_c3_software_esi.Protocols.EdlCommand.RoundTrip.{fits_layout}
use oresat_c3_software_esi.Protocols.EdlPacket.{pack, pack_payload, unpack_payload, from_frame}
use oresat_c3_software_esi.Protocols.EdlPacket
use oresat_c3_software_esi.Protocols.Sample.{
  digest, length-digest, pack_header, tfdf_header, key, plain,
}
use oresat_c3_software_esi.Protocols.Sdls
use oresat_c3_software_esi.Protocols.Sdls.{
  TransferFrame, sdls_oresat, spi_of, sdls_header, authenticated, last_of, hmac_len, apply_mask,
  apply_sdls, apply_oresat, verify_sdls, verify_oresat, get_sdls_len,
}
use oresat_c3_software_esi.Protocols.Uslp.{make_frame}
use oresat_c3_software_esi.Subsystems.Opd.Sband.{sband, new_sband}
use oresat_c3_software_esi.Subsystems.Opd.System
use oresat_c3_software_esi.Subsystems.Opd.System.{Opd, OpdState}
use oresat_c3_software_esi.Services.NodeManager.{NodeManager}
use oresat_c3_software_esi.Services.Edl.State.{Packages, EdlService, Env, dest_handler}
use oresat_c3_software_esi.Services.Edl.Commands.{values, run_cmd, run_args, run_opd_sysenable}
use oresat_c3_software_esi.Services.Edl.Frames.{packet, accept, read_frame, frame_to_packet}
use oresat_c3_software_esi.Services.Edl.Loop.{process_command, on_loop}
use oresat_c3_software_esi.Services.Edl.Replay.{
  frames_to_packets, Ascends, frames_to_packets-Ascends, frame_to_packet-frame_to_packet,
}
use oresat_c3_software_esi.Services.Edl.Rejected.{
  hmac_of, process_command_forged, on_loop_malformed,
}
use oresat_c3_software_esi.Services.Edl.Typed.{answer_fits, run_cmd-answer_fits}
use oresat_c3_software_esi.Services.Edl.Answered.{
  accepted, request_packet, response_packet, process_command-pack,
}

-- PDUs of one byte
abbrev pdu_pack : ℕ → Option (List ℕ)
pdu_pack p = some (p ∷ [])

abbrev pdu_from_raw : List ℕ → Option ℕ
pdu_from_raw [] = none
pdu_from_raw (p ∷ ps) = some p

abbrev lib : Packages ℕ
lib = record {
  digest = digest;
  pack_header = pack_header;
  tfdf_header = tfdf_header;
  pdu_pack = pdu_pack;
  pdu_from_raw = pdu_from_raw;
  packet_destination = λ p. dest_handler;
}

abbrev power : Opd
power = record {
  mock = false;
  nodes = (4, sband (new_sband false)) ∷ [];
  status = OpdState.fault;
  uart_node = none;
  not_enable = false;
  resets = 0;
  fault_readings = [];
}

abbrev manager : NodeManager
manager = record {
  managed = [];
  opd = power;
  loops = 0;
  counts = record {
    nodes_off = 0;
    nodes_booting = 0;
    nodes_on = 0;
    nodes_with_errors = 0;
    nodes_not_found = 0;
    nodes_dead = 0;
  };
  node_id_to_name = [];
  opd_addr_to_name = [];
}

-- in flight mode, with the sequence count 20
abbrev service : EdlService ℕ
service = record {
  flight_mode = true;
  sequence_count = 20;
  rejected_count = 0xFFFFFFFF;
  last_edl = 0;
  tx_enable = false;
  last_tx_enable = 0;
  active_key = 0;
  keys = (0, key) ∷ [];
  manager = manager;
  cmd_uplink = [];
  file_uplink = [];
  cmd_downlink = [];
  file_downlink = [];
  cfdp_tm = [];
  cfdp_src = [];
  cfdp_dest = [];
  flash_queue = [];
  effects = [];
}

abbrev env : Env
env = record {
  time = 50000;
  node_state = none;
  sdo_written = none;
  od_written = λ args objects. objects;
  sdo_read = none;
  rtc_set = true;
  system_time_set = true;
  beacon_sent = true;
  flash_queued = true;
}

-- a payload with the sequence number and the HMAC of a key
abbrev signed : List ℕ → ℕ → List ℕ → TransferFrame
signed k seq_num raw = record plain {
  insert_zone = some (sdls_header seq_num);
  tfdz =
      raw
      ++ digest k
          (authenticated digest pack_header plain.header (sdls_header seq_num) (0xE5 ∷ raw));
}

abbrev ping_5 : EdlCommandRequest
ping_5 = record { code = ping; args = int 5 ∷ [] }

abbrev ping_frame : TransferFrame
ping_frame = signed key 20 (17 ∷ 5 ∷ 0 ∷ 0 ∷ 0 ∷ [])

-- The number 20 is taken, a frame without a security header raises, and 20 is taken again.
frames_to_packets-Ascends_example :
    Ascends lib 20
      (frames_to_packets lib 1 (ping_frame ∷ plain ∷ ping_frame ∷ []) service).0
      (frames_to_packets lib 1 (ping_frame ∷ plain ∷ ping_frame ∷ []) service).1.sequence_count
    × ((frames_to_packets lib 1 (ping_frame ∷ plain ∷ ping_frame ∷ []) service).1.flight_mode
        ≡ true)
frames_to_packets-Ascends_example =
    frames_to_packets-Ascends lib 1 (ping_frame ∷ plain ∷ ping_frame ∷ []) service refl refl

ping_taken : (frame_to_packet lib 1 ping_frame service).0 ≡ packet (request_packet ping_5 20 false)
unfolding frame_to_packet accept from_frame verify_sdls verify_oresat spi_of apply_mask
    unpack_payload unpack_request code_of edl_commands unpack_layout unpack_fields
ping_taken = refl

frame_to_packet-frame_to_packet_example :
    (frame_to_packet lib 2 ping_frame (frame_to_packet lib 1 ping_frame service).1).0
    ≡ packet (request_packet ping_5 20 false)
frame_to_packet-frame_to_packet_example =
    frame_to_packet-frame_to_packet lib 1 2 ping_frame (request_packet ping_5 20 false) service refl
      refl ping_taken

-- a frame that was signed with another key
abbrev forged : TransferFrame
forged = signed (1 ∷ []) 20 (17 ∷ 5 ∷ 0 ∷ 0 ∷ 0 ∷ [])

vcid_0 : spi_of 0 ≡ some sdls_oresat
unfolding spi_of
vcid_0 = refl

other_hmac : same (hmac_of lib key forged (sdls_header 20)) (last_of hmac_len forged.tfdz) ≡ false
unfolding apply_mask
other_hmac = refl

process_command_forged_example :
    process_command lib env (record service { cmd_uplink = forged ∷ plain ∷ [] })
    ≡ (true, record service { cmd_uplink = plain ∷ []; rejected_count = 0 })
process_command_forged_example =
    process_command_forged lib env forged (plain ∷ []) key (sdls_header 20)
      (record service { cmd_uplink = forged ∷ plain ∷ [] }) refl refl vcid_0 refl other_hmac

-- a PING of two bytes
abbrev short_ping : TransferFrame
short_ping = signed key 20 (17 ∷ 5 ∷ [])

short_verified :
    verify_sdls digest pack_header short_ping (some key)
    ≡ (Sdls.ok 20, record short_ping { tfdz = 17 ∷ 5 ∷ [] })
unfolding verify_sdls verify_oresat spi_of apply_mask
short_verified = refl

short_raises : unpack_request (17 ∷ 5 ∷ []) ≡ err struct_error
unfolding unpack_request code_of edl_commands unpack_layout unpack_fields
short_raises = refl

on_loop_malformed_example :
    on_loop lib env (record service { cmd_uplink = short_ping ∷ [] }) ≡ (false, service)
on_loop_malformed_example =
    on_loop_malformed lib env short_ping (record short_ping { tfdz = 17 ∷ 5 ∷ [] }) [] key 20
      struct_error (record service { cmd_uplink = short_ping ∷ [] }) refl refl short_verified refl
      refl short_raises

fits_ping : fits_layout (edl_commands ping).req (int 5 ∷ []) ≡ true
unfolding edl_commands
fits_ping = refl

pong_fits : fits_layout (edl_commands ping).res (int 5 ∷ []) ≡ true
unfolding edl_commands
pong_fits = refl

abbrev queued : EdlService ℕ
queued = record service {
  cmd_uplink = record ping_frame { header = record plain.header { frame_len = 52 } } ∷ [];
}

pong : (run_cmd env ping_5 (accepted 50000 20 [] queued)).0 ≡ values (int 5 ∷ [])
unfolding run_cmd run_args
pong = refl

ping_packed :
    pack pdu_pack pdu_from_raw digest pack_header tfdf_header
      (request_packet ping_5 20 false)
      (some key)
      none
    ≡ EdlPacket.ok (record ping_frame { header = record plain.header { frame_len = 52 } })
unfolding pack pack_payload pack_request pack_layout edl_commands pack_fields pack_field make_frame
    get_sdls_len apply_sdls apply_oresat spi_of apply_mask
ping_packed = refl

process_command-pack_example :
    (reply : TransferFrame) × (process_command lib env queued ≡ (
      true,
      record (run_cmd env ping_5 (accepted 50000 20 [] queued)).1 { cmd_downlink = reply ∷ [] },
    ))
    × ((ignore_hmac : Bool)
        → read_frame lib reply key ignore_hmac
          ≡ EdlPacket.ok (response_packet (record { code = ping; values = int 5 ∷ [] }) 20))
process_command-pack_example =
    process_command-pack lib length-digest env ping_5 20 false key
      (record ping_frame { header = record plain.header { frame_len = 52 } }) [] (int 5) [] queued
      refl refl (omega arith) (omega arith) refl fits_ping ping_packed refl pong pong_fits

run_cmd-answer_fits_example : answer_fits ping (run_cmd env ping_5 service).0 ≡ true
run_cmd-answer_fits_example = run_cmd-answer_fits env ping_5 service refl (omega arith) fits_ping

-- A subsystem with a fault is answered as enabled.
fault_reads_true :
    ((run_opd_sysenable (bool true) service).0 ≡ values (int 2 ∷ []))
    × (pack_response (record { code = opd_sysenable; values = int 2 ∷ [] }) ≡ ok (8 ∷ 1 ∷ []))
unfolding run_opd_sysenable System.enable System.enable_from System.disable pack_response
    pack_layout edl_commands pack_fields pack_field
fault_reads_true = (refl, refl)
