-- ===== src/Services/Edl/Answered.antt =====
-- oresat_c3/services/edl.py: a command from the ground to its response.
use oresat_c3_software_esi.Base.{
  ◌≡◌, refl, sym, ap, ◌∙◌, arith, ℕ, ◌/◌, ◌%◌, ◌^◌, ◌<◌, Bool, true, false, not, ◌&&◌, none, some,
  List, [], ◌∷◌, ◌++◌, length, ltb, if◌then◌else◌,
}
use mathlib.Core.Path.{subst}
use oresat_c3_software_esi.Protocols.EdlCommand.Struct.{Value}
use oresat_c3_software_esi.Protocols.EdlCommand.{
  EdlCommandRequest, EdlCommandResponse, edl_commands,
}
use oresat_c3_software_esi.Protocols.EdlCommand.RoundTrip.{fits_layout}
use oresat_c3_software_esi.Protocols.EdlPacket.{
  request, response, EdlPacket, Result, ok, err, c3_command, pack,
}
use oresat_c3_software_esi.Protocols.EdlPacket.RoundTrip.{from_frame-pack}
use oresat_c3_software_esi.Protocols.Sdls.{TransferFrame, hmac_len, source, dest}
use oresat_c3_software_esi.Services.Edl.State.{Packages, EdlService, Env}
use oresat_c3_software_esi.Services.Edl.Commands.{values, run_cmd}
use oresat_c3_software_esi.Services.Edl.Frames.{
  packet, hmac_key, accept, read_frame, frame_to_packet, respond,
}
use oresat_c3_software_esi.Services.Edl.Kept.{is_local, run_cmd-Kept}
use oresat_c3_software_esi.Services.Edl.Loop.{
  run_payload, run_received, run_frames, process_command,
}

abbrev value_or : {A : Type 0} → A → Result A → A
value_or a (ok b) = b
value_or a (err x) = a

ok_eq : {A : Type 0} (a b : A) → ◌≡◌ {A = Result A} (ok a) (ok b) → a ≡ b
ok_eq a b e = ap (value_or a) e

module _ {Pdu : Type 0} where
  -- The state in which the command of an accepted request runs.
  abbrev pub accepted : ℕ → ℕ → List TransferFrame → EdlService Pdu → EdlService Pdu
  accepted time seq_num frames s = record s {
    cmd_uplink = frames;
    last_edl = time / 1000;
    sequence_count = if s.flight_mode then seq_num else s.sequence_count;
  }

  -- the packet of a request, as the ground sends it, and of the response to it
  abbrev pub request_packet : EdlCommandRequest → ℕ → Bool → EdlPacket Pdu
  request_packet r seq_num bypass = record {
    payload = request r;
    seq_num = seq_num;
    src_dest = dest;
    bypass = bypass;
  }

  abbrev pub response_packet : EdlCommandResponse → ℕ → EdlPacket Pdu
  response_packet r seq_num = record {
    payload = response r;
    seq_num = seq_num;
    src_dest = source;
    bypass = false;
  }

module _ {Pdu : Type 0} (lib : Packages Pdu)
    (length-digest : (key message : List ℕ) → length (lib.digest key message) ≡ hmac_len) where
  abbrev packet_frame : EdlPacket Pdu → List ℕ → Result TransferFrame
  packet_frame p key =
      pack lib.pdu_pack lib.pdu_from_raw lib.digest lib.pack_header lib.tfdf_header p (some key)
        none

  read_frame-pack :
      (r : EdlCommandRequest) (n : ℕ) (bypass ignore_hmac : Bool) (key : List ℕ)
      (frame : TransferFrame)
      → fits_layout (edl_commands r.code).req r.args ≡ true
      → n < 0x100000000
      → packet_frame (request_packet r n bypass) key ≡ ok frame
      → read_frame lib frame key ignore_hmac ≡ ok (request_packet r n false)
  read_frame-pack r n bypass ignore_hmac key frame h l e =
      let (frame', packs, reads) =
        from_frame-pack lib.pdu_pack lib.pdu_from_raw lib.digest lib.pack_header lib.tfdf_header
          length-digest (request_packet r n bypass) key none ignore_hmac h l in
      subst (λ f. read_frame lib f key ignore_hmac ≡ ok (request_packet r n false))
        (ok_eq frame' frame (sym packs ∙ e)) reads

  accept-accepted :
      (time n : ℕ) (r : EdlCommandRequest) (frames : List TransferFrame) (s : EdlService Pdu)
      → n < 0x100000000
      → (s.flight_mode && ltb n s.sequence_count) ≡ false
      → accept lib time (request_packet r n false) (record s { cmd_uplink = frames })
        ≡ (packet (request_packet r n false), accepted time n frames s)
  unfolding accept
  accept-accepted time n r frames s l o =
      let e : n % 2 ^ 32 ≡ n = omega (arith, l) in rw (accept, o, e) refl

  respond_packs :
      (r : EdlCommandResponse) (key : List ℕ) (s : EdlService Pdu)
      → hmac_key lib s ≡ some key
      → fits_layout (edl_commands r.code).res r.values ≡ true
      → s.sequence_count < 0x100000000
      → (reply : TransferFrame) × ((respond lib c3_command (response r) s).1
          ≡ record s { cmd_downlink = s.cmd_downlink ++ (reply ∷ []) })
        × ((ignore_hmac : Bool)
            → read_frame lib reply key ignore_hmac ≡ ok (response_packet r s.sequence_count))
  unfolding respond
  respond_packs r key s k h l =
      let p = response_packet r s.sequence_count in
      let (reply, packs, _) =
        from_frame-pack lib.pdu_pack lib.pdu_from_raw lib.digest lib.pack_header lib.tfdf_header
          length-digest p key none false h l in
      (
        reply,
        rw (respond, k, packs) refl,
        λ ignore_hmac.
            let (reply', packs', reads) =
              from_frame-pack lib.pdu_pack lib.pdu_from_raw lib.digest lib.pack_header
                lib.tfdf_header length-digest p key none ignore_hmac h l in
            subst (λ f. read_frame lib f key ignore_hmac ≡ ok p)
              (ok_eq reply' reply (sym packs' ∙ packs)) reads,
      )

  frame_to_packet-accepted :
      (time n : ℕ) (r : EdlCommandRequest) (bypass : Bool) (key : List ℕ) (frame : TransferFrame)
      (frames : List TransferFrame) (s : EdlService Pdu)
      → hmac_key lib s ≡ some key
      → fits_layout (edl_commands r.code).req r.args ≡ true
      → n < 0x100000000
      → (s.flight_mode && ltb n s.sequence_count) ≡ false
      → packet_frame (request_packet r n bypass) key ≡ ok frame
      → frame_to_packet lib time frame (record s { cmd_uplink = frames })
        ≡ (packet (request_packet r n false), accepted time n frames s)
  unfolding frame_to_packet
  frame_to_packet-accepted time n r bypass key frame frames s k h l o e =
      rw (frame_to_packet, k, read_frame-pack r n bypass (not s.flight_mode) key frame h l e)
        (accept-accepted time n r frames s l o)

  run_payload-respond :
      (env : Env) (r : EdlCommandRequest) (v : Value) (vs : List Value) (s : EdlService Pdu)
      → (run_cmd env r s).0 ≡ values (v ∷ vs)
      → run_payload lib env (request r) s ≡ (
        true,
        (respond lib c3_command
            (response (record { code = r.code; values = v ∷ vs }))
            (run_cmd env r s).1).1,
      )
  unfolding run_payload
  run_payload-respond env r v vs s a = rw (run_payload, a) refl

  -- A request that is no SDO write to the object dictionary of the flight computer itself, and that the ground packs
  -- with the active key, with arguments in range and, in flight mode, a
  -- number that is not below the sequence count, is run in the state with that number; if the command
  -- gives values in range, the pass puts one frame on the downlink, from which the ground's key gives
  -- the response with those values and the sequence count of the service, and otherwise leaves what
  -- the command made.
  pub process_command-pack :
      (env : Env) (r : EdlCommandRequest) (n : ℕ) (bypass : Bool) (key : List ℕ)
      (frame : TransferFrame) (frames : List TransferFrame) (v : Value) (vs : List Value)
      (s : EdlService Pdu)
      → is_local r.code r.args ≡ false
      → hmac_key lib s ≡ some key
      → s.sequence_count < 0x100000000
      → n < 0x100000000
      → (s.flight_mode && ltb n s.sequence_count) ≡ false
      → fits_layout (edl_commands r.code).req r.args ≡ true
      → packet_frame (request_packet r n bypass) key ≡ ok frame
      → s.cmd_uplink ≡ frame ∷ frames
      → (run_cmd env r (accepted env.time n frames s)).0 ≡ values (v ∷ vs)
      → fits_layout (edl_commands r.code).res (v ∷ vs) ≡ true
      → let t = (run_cmd env r (accepted env.time n frames s)).1 in
        (reply : TransferFrame) × (process_command lib env s
          ≡ (true, record t { cmd_downlink = s.cmd_downlink ++ (reply ∷ []) }))
        × ((ignore_hmac : Bool)
            → read_frame lib reply key ignore_hmac
              ≡ ok (
                  response_packet
                    (record { code = r.code; values = v ∷ vs })
                    (accepted env.time n frames s).sequence_count))
  unfolding process_command
  process_command-pack env r n bypass key frame frames v vs s other k c l o h e q a w =
      let s' = accepted env.time n frames s in
      let t = (run_cmd env r s').1 in
      let kept = run_cmd-Kept env r s' other in
      let k' : hmac_key lib t ≡ some key = rw (kept.active_key, kept.keys) k in
      let c' : s'.sequence_count < 0x100000000 = ground (arith, c, l) in
      let c'' : t.sequence_count < 0x100000000 = omega (arith, c', kept.sequence_count) in
      let (reply, sent, reads) =
        respond_packs (record { code = r.code; values = v ∷ vs }) key t k' w c'' in
      (
        reply,
        ap (λ l'. run_frames lib env l' s) q
            ∙ ap (λ out. run_received lib env out.0 out.1)
                (frame_to_packet-accepted env.time n r bypass key frame frames s k h l o e)
            ∙ run_payload-respond env r v vs s' a
            ∙ ap (λ u. (true, u)) sent
            ∙ ap (λ d. (true, record t { cmd_downlink = d ++ (reply ∷ []) })) kept.cmd_downlink,
        λ ignore_hmac.
            subst
              (λ m.
                read_frame lib reply key ignore_hmac
                ≡ ok (response_packet (record { code = r.code; values = v ∷ vs }) m))
              kept.sequence_count (reads ignore_hmac),
      )
