-- ===== src/Services/Edl/Loop.antt =====
-- oresat_c3/services/edl.py: `_process_command`, `_process_cfdp` and `on_loop`.
use oresat_c3_software_esi.Base.{Bool, true, false, List, [], ◌∷◌, ◌++◌}
use oresat_c3_software_esi.Protocols.EdlCommand.{EdlCommandRequest}
use oresat_c3_software_esi.Protocols.EdlPacket.{
  Payload, request, response, pdu, c3_command, file_transfer,
}
use oresat_c3_software_esi.Protocols.Sdls.{TransferFrame}
use oresat_c3_software_esi.Services.Edl.Commands.{Answer, values, raises, run_cmd}
use oresat_c3_software_esi.Services.Edl.Frames.{
  Received, packet, rejected, raised, frame_to_packet, respond,
}
use oresat_c3_software_esi.Services.Edl.State.{
  Packages, EdlService, Env, dest_handler, source_handler, unknown,
}

module _ {Pdu : Type 0} (lib : Packages Pdu) where
  -- the response to a command, where it has values; a raise is logged
  abbrev pub answer_with : EdlCommandRequest → Answer → EdlService Pdu → EdlService Pdu
  answer_with r (values []) s = s
  answer_with r (values (v ∷ vs)) s =
      (respond lib c3_command (response (record { code = r.code; values = v ∷ vs })) s).1
  answer_with r raises s = s

  -- A response in place of a request raises inside of the `try`, a PDU in its handler.
  unfoldable pub run_payload : Env → Payload Pdu → EdlService Pdu → Bool × EdlService Pdu
  run_payload env (request r) s = let (a, s') = run_cmd env r s in (true, answer_with r a s')
  run_payload env (response r) s = (true, s)
  run_payload env (pdu p) s = (false, s)

  abbrev pub run_received : Env → Received Pdu → EdlService Pdu → Bool × EdlService Pdu
  run_received env (packet p) s = run_payload env p.payload s
  run_received env rejected s = (true, s)
  run_received env raised s = (false, s)

  abbrev pub run_frames : Env → List TransferFrame → EdlService Pdu → Bool × EdlService Pdu
  run_frames env [] s = (true, s)
  run_frames env (frame ∷ frames) s =
      let (r, s') = frame_to_packet lib env.time frame (record s { cmd_uplink = frames }) in
      run_received env r s'

  -- `_process_command`, and whether it did not raise
  unfoldable pub process_command : Env → EdlService Pdu → Bool × EdlService Pdu
  process_command env s = run_frames env s.cmd_uplink s

  -- `_handle_pdu`
  unfoldable pub handle_pdu : Pdu → EdlService Pdu → EdlService Pdu
  handle_pdu p s = elim (lib.packet_destination p) [
    | dest_handler ↦ record s { cfdp_dest = s.cfdp_dest ++ (p ∷ []) }
    | source_handler ↦ record s { cfdp_src = s.cfdp_src ++ (p ∷ []) }
    | unknown ↦ s
  ]

  -- A payload that is no PDU raises in `get_packet_destination`.
  abbrev pub handle_payload : Payload Pdu → EdlService Pdu → Bool × EdlService Pdu
  handle_payload (pdu p) s = (true, handle_pdu p s)
  handle_payload _ s = (false, s)

  abbrev pub handle_received : Received Pdu → EdlService Pdu → Bool × EdlService Pdu
  handle_received (packet p) s = handle_payload p.payload s
  handle_received rejected s = (true, s)
  handle_received raised s = (false, s)

  abbrev pub handle_frames : Env → List TransferFrame → EdlService Pdu → Bool × EdlService Pdu
  handle_frames env [] s = (true, s)
  handle_frames env (frame ∷ frames) s =
      let (r, s') = frame_to_packet lib env.time frame (record s { file_uplink = frames }) in
      handle_received r s'

  -- the loop over the telemetry of the handlers, a raise in which leaves the rest in the queue
  unfoldable pub send_all : List Pdu → EdlService Pdu → Bool × EdlService Pdu
  send_all [] s = (true, record s { cfdp_tm = [] })
  send_all (p ∷ ps) s =
      let (went, s') = respond lib file_transfer (pdu p) s in
      elim went [ true ↦ send_all ps s' | false ↦ (false, record s' { cfdp_tm = ps }) ]

  abbrev pub then_telemetry : Bool × EdlService Pdu → Bool × EdlService Pdu
  then_telemetry (true, s) = send_all s.cfdp_tm s
  then_telemetry (false, s) = (false, s)

  -- `_process_cfdp`, and whether it did not raise
  unfoldable pub process_cfdp : Env → EdlService Pdu → Bool × EdlService Pdu
  process_cfdp env s = then_telemetry (handle_frames env s.file_uplink s)

  abbrev pub then_files : Env → Bool × EdlService Pdu → Bool × EdlService Pdu
  then_files env (true, s) = process_cfdp env s
  then_files env (false, s) = (false, s)

  unfoldable pub on_loop : Env → EdlService Pdu → Bool × EdlService Pdu
  on_loop env s = then_files env (process_command env s)
