-- ===== src/Services/Edl/Frames.antt =====
-- oresat_c3/services/edl.py: `_frame_to_packet` and `_respond`.
use oresat_c3_software_esi.Base.{
  ℕ, ◌+◌, ◌/◌, ◌%◌, ◌^◌, Bool, true, false, not, ◌&&◌, Option, none, some, List, [], ◌∷◌, ◌++◌, ltb,
  ◌==◌, if◌then◌else◌, lookup,
}
use oresat_c3_software_esi.Protocols.EdlPacket.{
  Payload, EdlPacket, Error, edl_packet_error, link, Result, ok, err, c3_command, file_transfer,
  pack, from_frame,
}
use oresat_c3_software_esi.Protocols.Sdls.{TransferFrame, invalid_hmac, value_error, source}
use oresat_c3_software_esi.Services.Edl.State.{Packages, EdlService}

-- what `_frame_to_packet` returns, or that it raises
pub data Received (Pdu : Type 0) : Type 0 where
  packet : EdlPacket Pdu → Received Pdu
  rejected : Received Pdu
  raised : Received Pdu

-- `except (EdlPacketError, SdlsInvalidHmacError)`
abbrev pub is_caught : Error → Bool
is_caught edl_packet_error = true
is_caught (link invalid_hmac) = true
is_caught _ = false

-- `except (EdlCommandError, EdlPacketError, ValueError)`
abbrev pub is_response_error : Error → Bool
is_response_error edl_packet_error = true
is_response_error (link value_error) = true
is_response_error _ = false

module _ {Pdu : Type 0} (lib : Packages Pdu) where
  -- `_hmac_key`, none where the key is missing
  abbrev pub hmac_key : EdlService Pdu → Option (List ℕ)
  hmac_key s = lookup s.active_key s.keys

  abbrev pub read_frame : TransferFrame → List ℕ → Bool → Result (EdlPacket Pdu)
  read_frame frame key ignore_hmac =
      from_frame lib.pdu_pack lib.pdu_from_raw lib.digest lib.pack_header lib.tfdf_header frame
        (some key) ignore_hmac

  -- the end of `_frame_to_packet`, for a packet that was unpacked
  unfoldable pub accept : ℕ → EdlPacket Pdu → EdlService Pdu → Received Pdu × EdlService Pdu
  accept time p s = if s.flight_mode && ltb p.seq_num s.sequence_count then (rejected, s) else (
    packet p,
    record s {
      last_edl = time / 1000;
      sequence_count = if s.flight_mode then p.seq_num % 2 ^ 32 else s.sequence_count;
    },
  )

  abbrev pub receive : ℕ → Result (EdlPacket Pdu) → EdlService Pdu → Received Pdu × EdlService Pdu
  receive time (ok p) s = accept time p s
  receive time (err e) s =
      if is_caught e
      then (rejected, record s { rejected_count = (s.rejected_count + 1) % 2 ^ 32 })
      else (raised, s)

  unfoldable pub frame_to_packet :
      ℕ → TransferFrame → EdlService Pdu → Received Pdu × EdlService Pdu
  frame_to_packet time frame s = elim (hmac_key s) [
    | none ↦ (raised, s)
    | some key ↦ receive time (read_frame frame key (not s.flight_mode)) s
  ]

  -- the frame of a response, or of a PDU, with the sequence count of the last request
  abbrev pub response_frame : Payload Pdu → List ℕ → EdlService Pdu → Result TransferFrame
  response_frame payload key s =
      pack lib.pdu_pack lib.pdu_from_raw lib.digest lib.pack_header lib.tfdf_header
        (record {
          payload = payload;
          seq_num = s.sequence_count;
          src_dest = source;
          bypass = false;
        })
        (some key) none

  abbrev pub put_frame : ℕ → TransferFrame → EdlService Pdu → EdlService Pdu
  put_frame vcid frame s =
      if vcid == c3_command
      then record s { cmd_downlink = s.cmd_downlink ++ (frame ∷ []) }
      else if vcid == file_transfer
      then record s { file_downlink = s.file_downlink ++ (frame ∷ []) }
      else s

  abbrev pub send : ℕ → Result TransferFrame → EdlService Pdu → Bool × EdlService Pdu
  send vcid (ok frame) s = (true, put_frame vcid frame s)
  send vcid (err e) s = (is_response_error e, s)

  -- `_respond`, and whether it did not raise
  unfoldable pub respond : ℕ → Payload Pdu → EdlService Pdu → Bool × EdlService Pdu
  respond vcid payload s = elim (hmac_key s) [
    | none ↦ (false, s)
    | some key ↦ send vcid (response_frame payload key s) s
  ]
