-- ===== src/Protocols/EdlPacket/RoundTrip.antt =====
-- oresat_c3/protocols/edl_packet.py: the frame of a packet gives the packet back.
use oresat_c3_software_esi.Base.{
  ◌≡◌, refl, ap, ◌∙◌, arith, ℕ, ◌<◌, Bool, true, false, Option, none, some, List, length,
}
use oresat_c3_software_esi.Protocols.EdlCommand.{edl_commands}
use oresat_c3_software_esi.Protocols.EdlCommand.RoundTrip.{
  fits_layout, unpack_request-pack_request, unpack_response-pack_response,
}
use oresat_c3_software_esi.Protocols.Sdls
use oresat_c3_software_esi.Protocols.Sdls.{
  SourceOrDest, source, dest, PrimaryHeader, TransferFrame, hmac_len, Sdls, sdls_oresat, spi_of,
  get_sdls_len, apply_sdls, verify_sdls,
}
use oresat_c3_software_esi.Protocols.Sdls.Authentic.{verify_sdls-apply_sdls}
use oresat_c3_software_esi.Protocols.Uslp.{make_frame, frame_header}
use oresat_c3_software_esi.Protocols.EdlPacket.{
  Payload, request, response, pdu, EdlPacket, ok, vcid_of, pack_payload, unpack_payload, pack,
  framed, from_frame, from_verified, with_payload,
}

module _ {Pdu : Type 0} (pdu_pack : Pdu → Option (List ℕ)) (pdu_from_raw : List ℕ → Option Pdu)
    (digest : List ℕ → List ℕ → List ℕ) (pack_header : PrimaryHeader → List ℕ)
    (tfdf_header : List ℕ)
    (length-digest : (key message : List ℕ) → length (digest key message) ≡ hmac_len) where
  -- What may be sent to `src_dest`: a request to the satellite and a response from it, with values of
  -- the kinds of the command, and a PDU that its package reads back.
  abbrev pub Sendable : SourceOrDest → Payload Pdu → Type 0
  Sendable dest (request r) = fits_layout (edl_commands r.code).req r.args ≡ true
  Sendable source (request r) = false ≡ true
  Sendable source (response r) = fits_layout (edl_commands r.code).res r.values ≡ true
  Sendable dest (response r) = false ≡ true
  Sendable src_dest (pdu p) = (raw : List ℕ) × (pdu_pack p ≡ some raw) × (pdu_from_raw raw ≡ some p)

  payload_holds :
      (src_dest : SourceOrDest) (payload : Payload Pdu)
      → Sendable src_dest payload
      → (raw : List ℕ) × (pack_payload pdu_pack pdu_from_raw payload ≡ some raw)
        × (unpack_payload pdu_pack pdu_from_raw (vcid_of payload) src_dest raw ≡ ok payload)
  unfolding pack_payload unpack_payload
  payload_holds dest (request r) h =
      let (raw, p, u) = unpack_request-pack_request r h in (raw, rw p refl, rw u refl)
  payload_holds source (response r) h =
      let (raw, p, u) = unpack_response-pack_response r h in (raw, rw p refl, rw u refl)
  payload_holds src_dest (pdu p) (raw, k, u) = (raw, k, rw u refl)
  payload_holds source (request r) h = ground arith
  payload_holds dest (response r) h = ground arith

  vcid_spi : (payload : Payload Pdu) → spi_of (vcid_of payload) ≡ some sdls_oresat
  unfolding spi_of
  vcid_spi (request r) = refl
  vcid_spi (response r) = refl
  vcid_spi (pdu p) = refl

  sdls_len : (payload : Payload Pdu) → get_sdls_len (vcid_of payload) ≡ Sdls.ok 38
  unfolding get_sdls_len spi_of
  sdls_len (request r) = refl
  sdls_len (response r) = refl
  sdls_len (pdu p) = refl

  -- what `make_frame` signs
  abbrev unsigned : EdlPacket Pdu → List ℕ → TransferFrame
  unsigned p raw = record {
    header = frame_header raw (vcid_of p.payload) p.src_dest none none p.bypass false 38;
    insert_zone = none;
    tfdf_header = tfdf_header;
    tfdz = raw;
    op_ctrl_field = none;
  }

  make_frame-apply_sdls :
      (p : EdlPacket Pdu) (raw : List ℕ) (key : Option (List ℕ))
      → make_frame digest pack_header tfdf_header raw
          (vcid_of p.payload)
          p.src_dest
          key
          none
          none
          p.seq_num
          p.bypass
          false
        ≡ apply_sdls digest pack_header (unsigned p raw) p.seq_num key
  unfolding make_frame
  make_frame-apply_sdls p raw key = rw (make_frame, sdls_len p.payload) refl

  pack_payload-framed :
      (p : EdlPacket Pdu) (raw : List ℕ) (key control_word : Option (List ℕ))
      → pack_payload pdu_pack pdu_from_raw p.payload ≡ some raw
      → pack pdu_pack pdu_from_raw digest pack_header tfdf_header p key control_word
        ≡ framed (
            make_frame digest pack_header tfdf_header raw
              (vcid_of p.payload)
              p.src_dest
              key
              none
              none
              p.seq_num
              p.bypass
              false)
  unfolding pack
  pack_payload-framed p raw key control_word e = rw (pack, e) refl

  -- A packet that may be sent, with a sequence number of four bytes, packs to a frame from which the
  -- same key gives the packet back, but for the bypass flag.
  pub from_frame-pack :
      (p : EdlPacket Pdu) (key : List ℕ) (control_word : Option (List ℕ)) (ignore_hmac : Bool)
      → Sendable p.src_dest p.payload
      → p.seq_num < 0x100000000
      → (frame : TransferFrame) × (pack pdu_pack pdu_from_raw digest pack_header tfdf_header p
            (some key)
            control_word
          ≡ ok frame)
        × (from_frame pdu_pack pdu_from_raw digest pack_header tfdf_header frame
              (some key)
              ignore_hmac
            ≡ ok (record p { bypass = false }))
  unfolding pack from_frame
  from_frame-pack p key control_word ignore_hmac h n =
      let (raw, packs, unpacks) = payload_holds p.src_dest p.payload h in
      let (frame, applied, verified) =
        verify_sdls-apply_sdls digest pack_header length-digest (unsigned p raw) p.seq_num key
          (vcid_spi p.payload) n in
      (
        frame,
        pack_payload-framed p raw (some key) control_word packs
            ∙ ap framed (make_frame-apply_sdls p raw (some key) ∙ applied),
        ap (from_verified pdu_pack pdu_from_raw digest pack_header tfdf_header) verified
            ∙ ap
                (with_payload pdu_pack pdu_from_raw digest pack_header tfdf_header p.seq_num
                  p.src_dest)
                unpacks,
      )
