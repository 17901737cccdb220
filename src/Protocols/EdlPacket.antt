-- ===== src/Protocols/EdlPacket.antt =====
-- oresat_c3/protocols/edl_packet.py: the packets that a frame carries. The PDUs of the file transfer
-- are those of the package spacepackets, whose packing is a parameter.
pub mod RoundTrip
mod Tests
use oresat_c3_software_esi.Base.{ℕ, Bool, false, Option, none, some, List, ◌==◌, if◌then◌else◌}
use oresat_c3_software_esi.Protocols.EdlCommand.Struct
use oresat_c3_software_esi.Protocols.EdlCommand.{
  EdlCommandRequest, EdlCommandResponse, pack_request, unpack_request, pack_response,
  unpack_response,
}
use oresat_c3_software_esi.Protocols.Sdls
use oresat_c3_software_esi.Protocols.Sdls.{
  SourceOrDest, source, dest, PrimaryHeader, TransferFrame, verify_sdls,
}
use oresat_c3_software_esi.Protocols.Uslp.{make_frame}

-- `EdlVcid`
abbrev pub c3_command : ℕ
c3_command = 0

abbrev pub file_transfer : ℕ
file_transfer = 1

abbrev pub idle : ℕ
idle = 2

pub data Payload (Pdu : Type 0) : Type 0 where
  request : EdlCommandRequest → Payload Pdu
  response : EdlCommandResponse → Payload Pdu
  pdu : Pdu → Payload Pdu

pub record EdlPacket (Pdu : Type 0) : Type 0 where
  pub payload : Payload Pdu
  pub seq_num : ℕ
  pub src_dest : SourceOrDest
  pub bypass : Bool

-- `EdlPacketError`, and what the layers below raise
pub data Error : Type 0 where
  edl_packet_error : Error
  link : Sdls.Error → Error
  command : Struct.Error → Error

pub data Result (A : Type 0) : Type 0 where
  ok : A → Result A
  err : Error → Result A

-- any raise of a payload's `pack` becomes an `EdlPacketError`
abbrev packed : Struct.Result (List ℕ) → Option (List ℕ)
packed (Struct.ok raw) = some raw
packed (Struct.err e) = none

abbrev pub framed : Sdls.Result TransferFrame → Result TransferFrame
framed (Sdls.ok frame) = ok frame
framed (Sdls.err e) = err (link e)

module _ {Pdu : Type 0} where
  -- `self.vcid`
  abbrev pub vcid_of : Payload Pdu → ℕ
  vcid_of (request r) = c3_command
  vcid_of (response r) = c3_command
  vcid_of (pdu p) = file_transfer

  abbrev pub unpacked : {A : Type 0} → (A → Payload Pdu) → Struct.Result A → Result (Payload Pdu)
  unpacked make (Struct.ok a) = ok (make a)
  unpacked make (Struct.err e) = err (command e)

  -- `pdu_pack` is none where the packing of a PDU raises, `pdu_from_raw` where `PduFactory.from_raw`
  -- raises `ValueError`.
  module _ (pdu_pack : Pdu → Option (List ℕ)) (pdu_from_raw : List ℕ → Option Pdu) where
    unfoldable pub pack_payload : Payload Pdu → Option (List ℕ)
    pack_payload (request r) = packed (pack_request r)
    pack_payload (response r) = packed (pack_response r)
    pack_payload (pdu p) = pdu_pack p

    abbrev pub of_pdu : Option Pdu → Result (Payload Pdu)
    of_pdu none = err edl_packet_error
    of_pdu (some p) = ok (pdu p)

    -- What `EdlCommandRequest.unpack` raises is no `EdlCommandError`, and passes through.
    unfoldable pub unpack_payload : ℕ → SourceOrDest → List ℕ → Result (Payload Pdu)
    unpack_payload vcid src_dest raw =
        if vcid == c3_command
        then elim src_dest [
          | dest ↦ unpacked request (unpack_request raw)
          | source ↦ unpacked response (unpack_response raw)
        ]
        else if vcid == file_transfer
        then of_pdu (pdu_from_raw raw)
        else err edl_packet_error

    module _ (digest : List ℕ → List ℕ → List ℕ) (pack_header : PrimaryHeader → List ℕ)
        (tfdf_header : List ℕ) where
      -- `pack`, before the frame itself is packed; `control_word` is not passed on.
      unfoldable pub pack : EdlPacket Pdu → Option (List ℕ) → Option (List ℕ) → Result TransferFrame
      pack p hmac_key control_word = elim (pack_payload p.payload) [
        | none ↦ err edl_packet_error
        | some raw ↦ framed (
            make_frame digest pack_header tfdf_header raw (vcid_of p.payload) p.src_dest hmac_key
              none none p.seq_num p.bypass false)
      ]

      abbrev pub with_payload : ℕ → SourceOrDest → Result (Payload Pdu) → Result (EdlPacket Pdu)
      with_payload seq_num src_dest (ok payload) =
          ok (record { payload = payload; seq_num = seq_num; src_dest = src_dest; bypass = false })
      with_payload seq_num src_dest (err e) = err e

      -- what `from_frame` does after the security header was verified
      abbrev pub from_verified : Sdls.Result ℕ × TransferFrame → Result (EdlPacket Pdu)
      from_verified (Sdls.err e, frame) = err (link e)
      from_verified (Sdls.ok seq_num, frame) =
          with_payload seq_num frame.header.src_dest
            (unpack_payload frame.header.vcid frame.header.src_dest frame.tfdz)

      -- `from_frame`; `ignore_hmac` is not looked at.
      unfoldable pub from_frame : TransferFrame → Option (List ℕ) → Bool → Result (EdlPacket Pdu)
      from_frame frame hmac_key ignore_hmac =
          from_verified (verify_sdls digest pack_header frame hmac_key)
