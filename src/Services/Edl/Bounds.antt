-- ===== src/Services/Edl/Bounds.antt =====
-- oresat_c3/services/edl.py: the range of the counters.
use oresat_c3_software_esi.Base.{
  arith, ◌≡◌, ℕ, ◌^◌, ◌<◌, Bool, true, false, Bool-cases, Option-cases, inl, inr, List, [], ◌∷◌,
}
use oresat_c3_software_esi.Protocols.EdlCommand.{EdlCommandRequest}
use oresat_c3_software_esi.Protocols.EdlPacket.{
  Payload, request, response, pdu, EdlPacket, Result, ok, err, file_transfer,
}
use oresat_c3_software_esi.Protocols.Sdls.{TransferFrame}
use oresat_c3_software_esi.Services.Edl.State.{Packages, EdlService, Env}
use oresat_c3_software_esi.Services.Edl.Commands.{
  Answer, values, raises, run_cmd, run_args, run_sdo_write, write_local,
}
use oresat_c3_software_esi.Services.Edl.Frames.{
  Received, packet, rejected, raised, hmac_key, accept, receive, send, frame_to_packet, respond,
}
use oresat_c3_software_esi.Services.Edl.Kept.{is_local, run_cmd-Kept}
use oresat_c3_software_esi.Protocols.EdlCommand.Codes.{EdlCommandCode, co_sdo_write}
use oresat_c3_software_esi.Protocols.EdlCommand.Struct.{Value, int}
use oresat_c3_software_esi.Services.Edl.Loop.{
  answer_with, run_payload, run_received, process_command, handle_pdu, handle_received, run_frames,
  handle_frames, then_telemetry, send_all, process_cfdp, then_files, on_loop,
}

module _ {Pdu : Type 0} where
  -- The counters fit in the four bytes of their objects.
  abbrev pub Counted : EdlService Pdu → Type 0
  Counted s = (s.sequence_count < 2 ^ 32) × (s.rejected_count < 2 ^ 32)

  local-Counted :
      (env : Env) (code : EdlCommandCode) (args : List Value) (s : EdlService Pdu)
      → is_local code args ≡ true
      → Counted s
      → Counted (run_args env code args s).1
  unfolding run_args run_sdo_write write_local
  local-Counted env co_sdo_write (int node_id ∷ a ∷ b ∷ c ∷ d ∷ []) s l h = ground (arith, h)
  local-Counted env co_sdo_write _ s l h = ground (arith, h)
  local-Counted env _ _ s l h = ground (arith, h)

  run_cmd-Counted :
      (env : Env) (r : EdlCommandRequest) (s : EdlService Pdu)
      → Counted s
      → Counted (run_cmd env r s).1
  unfolding run_cmd
  run_cmd-Counted env r s h = elim (Bool-cases (is_local r.code r.args)) [
    | inl local ↦ local-Counted env r.code r.args s local h
    | inr other ↦
        let k = run_cmd-Kept env r s other in omega (arith, h, k.sequence_count, k.rejected_count)
  ]

  module _ (lib : Packages Pdu) where
    accept-Counted :
        (time : ℕ) (p : EdlPacket Pdu) (s : EdlService Pdu)
        → Counted s
        → Counted (accept lib time p s).1
    unfolding accept
    accept-Counted time p s h = ground (arith, h)

    receive-Counted :
        (time : ℕ) (r : Result (EdlPacket Pdu)) (s : EdlService Pdu)
        → Counted s
        → Counted (receive lib time r s).1
    receive-Counted time (ok p) s h = accept-Counted time p s h
    receive-Counted time (err e) s h = ground (arith, h)

    frame_to_packet-Counted :
        (time : ℕ) (frame : TransferFrame) (s : EdlService Pdu)
        → Counted s
        → Counted (frame_to_packet lib time frame s).1
    unfolding frame_to_packet
    frame_to_packet-Counted time frame s h = elim (Option-cases (hmac_key lib s)) [
      | inl k ↦ rw (frame_to_packet, k) h
      | inr (key, k) ↦ rw (frame_to_packet, k) (receive-Counted time _ s h)
    ]

    send-Counted :
        (vcid : ℕ) (r : Result TransferFrame) (s : EdlService Pdu)
        → Counted s
        → Counted (send lib vcid r s).1
    send-Counted vcid (ok frame) s h = ground (arith, h)
    send-Counted vcid (err e) s h = h

    respond-Counted :
        (vcid : ℕ) (payload : Payload Pdu) (s : EdlService Pdu)
        → Counted s
        → Counted (respond lib vcid payload s).1
    unfolding respond
    respond-Counted vcid payload s h = elim (Option-cases (hmac_key lib s)) [
      | inl k ↦ rw (respond, k) h
      | inr (key, k) ↦ rw (respond, k) (send-Counted vcid _ s h)
    ]

    answer_with-Counted :
        (r : EdlCommandRequest) (a : Answer) (s : EdlService Pdu)
        → Counted s
        → Counted (answer_with lib r a s)
    answer_with-Counted r (values []) s h = h
    answer_with-Counted r (values (v ∷ vs)) s h = respond-Counted _ _ s h
    answer_with-Counted r raises s h = h

    run_payload-Counted :
        (env : Env) (payload : Payload Pdu) (s : EdlService Pdu)
        → Counted s
        → Counted (run_payload lib env payload s).1
    unfolding run_payload
    run_payload-Counted env (request r) s h =
        answer_with-Counted r (run_cmd env r s).0 (run_cmd env r s).1 (run_cmd-Counted env r s h)
    run_payload-Counted env (response r) s h = h
    run_payload-Counted env (pdu p) s h = h

    run_received-Counted :
        (env : Env) (r : Received Pdu) (s : EdlService Pdu)
        → Counted s
        → Counted (run_received lib env r s).1
    run_received-Counted env (packet p) s h = run_payload-Counted env p.payload s h
    run_received-Counted env rejected s h = h
    run_received-Counted env raised s h = h

    run_frames-Counted :
        (env : Env) (frames : List TransferFrame) (s : EdlService Pdu)
        → Counted s
        → Counted (run_frames lib env frames s).1
    run_frames-Counted env [] s h = h
    run_frames-Counted env (frame ∷ frames) s h =
        run_received-Counted env _ _
          (frame_to_packet-Counted env.time frame (record s { cmd_uplink = frames }) h)

    handle_received-Counted :
        (r : Received Pdu) (s : EdlService Pdu) → Counted s → Counted (handle_received lib r s).1
    unfolding handle_pdu
    handle_received-Counted r s h = ground (arith, h)

    handle_frames-Counted :
        (env : Env) (frames : List TransferFrame) (s : EdlService Pdu)
        → Counted s
        → Counted (handle_frames lib env frames s).1
    handle_frames-Counted env [] s h = h
    handle_frames-Counted env (frame ∷ frames) s h =
        handle_received-Counted _ _
          (frame_to_packet-Counted env.time frame (record s { file_uplink = frames }) h)

    send_all-Counted :
        (ps : List Pdu) (s : EdlService Pdu) → Counted s → Counted (send_all lib ps s).1
    unfolding send_all
    send_all-Counted [] s h = h
    send_all-Counted (p ∷ ps) s h =
        let h' = respond-Counted file_transfer (pdu p) s h in
        elim (Bool-cases (respond lib file_transfer (pdu p) s).0) [
          | inl e ↦ rw (send_all, e) (send_all-Counted ps _ h')
          | inr e ↦ rw (send_all, e) h'
        ]

    then_telemetry-Counted :
        (out : Bool × EdlService Pdu) → Counted out.1 → Counted (then_telemetry lib out).1
    then_telemetry-Counted (true, s) h = send_all-Counted s.cfdp_tm s h
    then_telemetry-Counted (false, s) h = h

    then_files-Counted :
        (env : Env) (out : Bool × EdlService Pdu)
        → Counted out.1
        → Counted (then_files lib env out).1
    unfolding process_cfdp
    then_files-Counted env (true, s) h =
        then_telemetry-Counted (handle_frames lib env s.file_uplink s)
          (handle_frames-Counted env s.file_uplink s h)
    then_files-Counted env (false, s) h = h

    -- A pass of the service keeps both counters within four bytes, whatever the frames, also where it
    -- raises.
    pub on_loop-Counted :
        (env : Env) (s : EdlService Pdu) → Counted s → Counted (on_loop lib env s).1
    unfolding on_loop process_command
    on_loop-Counted env s h =
        then_files-Counted env (process_command lib env s) (run_frames-Counted env s.cmd_uplink s h)
