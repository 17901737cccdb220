-- ===== src/Protocols/EdlPacket/Tests.antt =====
-- oresat_c3/protocols/edl_packet.py and uslp.py: runs at fixed values.
use oresat_c3_software_esi.Base.{◌≡◌, refl, ℕ, true, false, Option, none, some, List, [], ◌∷◌}
use oresat_c3_software_esi.Protocols.EdlCommand.Struct.{bool, int}
use oresat_c3_software_esi.Protocols.EdlCommand.Codes.{opd_enable}
use oresat_c3_software_esi.Protocols.EdlCommand.RoundTrip.{fits_layout}
use oresat_c3_software_esi.Protocols.EdlCommand.{edl_commands}
use oresat_c3_software_esi.Protocols.EdlPacket.{EdlPacket, request}
use oresat_c3_software_esi.Protocols.Sample.{digest, pack_header, tfdf_header, key}
use oresat_c3_software_esi.Protocols.Sdls
use oresat_c3_software_esi.Protocols.Sdls.{TransferFrame, dest}
use oresat_c3_software_esi.Protocols.Uslp.{make_frame}

-- PDUs of one byte
abbrev pdu_pack : ℕ → Option (List ℕ)
pdu_pack p = some (p ∷ [])

abbrev pdu_from_raw : List ℕ → Option ℕ
pdu_from_raw [] = none
pdu_from_raw (p ∷ ps) = some p

abbrev enable_card : EdlPacket ℕ
enable_card = record {
  payload = request (record { code = opd_enable; args = int 0x1C ∷ bool true ∷ [] });
  seq_num = 12;
  src_dest = dest;
  bypass = true;
}

fits_enable : fits_layout (edl_commands opd_enable).req (int 0x1C ∷ bool true ∷ []) ≡ true
unfolding edl_commands
fits_enable = refl

made :
    (frame : TransferFrame) × (make_frame digest pack_header tfdf_header
        (1 ∷ 2 ∷ [])
        1
        dest
        (some key)
        (some 3)
        (some (9 ∷ 9 ∷ 9 ∷ 9 ∷ []))
        7
        false
        false
      ≡ Sdls.ok frame)
unfolding make_frame Sdls.get_sdls_len Sdls.spi_of Sdls.apply_sdls Sdls.apply_oresat Sdls.apply_mask
made = (_, refl)
